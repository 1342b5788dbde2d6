-- ===== src/Controller/Backup/Digest.antt =====
-- A hexadecimal digest in its checksum file: what `verify_backup` makes of it.
use nexguard_sentinel.Prelude.{
  ℕ, true, false, some, [], ◌∷◌, ◌++◌, length, nat_eq, nats_eq, ◌≡◌, refl, ap, arith,
}
use nexguard_sentinel.Python.Text.{Text, is_space, lstrip, rstrip, rstrip_cons, strip, lower}
use nexguard_sentinel.Python.Number.Hex.{is_hex, IsHex, int_hex}
use nexguard_sentinel.Disk.{Bytes}
use nexguard_sentinel.Controller.Backup.{ascii, is_digest, matches}

space_hex : (c : ℕ) → is_hex c ≡ true → is_space c ≡ false
unfolding is_space
space_hex c h = ground arith

pub lower_hex : (s : Text) → IsHex s → lower s ≡ s
unfolding lower IsHex
lower_hex [] h = refl
lower_hex (c ∷ s) (h, k) = let e = lower_hex s k in ground arith

pub ascii_line : (s : Text) → IsHex s → ascii (s ++ 10 ∷ []) ≡ some (s ++ 10 ∷ [])
unfolding IsHex
ascii_line [] h = ground arith
ascii_line (c ∷ s) (h, k) = let e = ascii_line s k in ground arith

rstrip_hex : (s : Text) → IsHex s → rstrip s ≡ s
unfolding rstrip IsHex
rstrip_hex [] h = refl
rstrip_hex (c ∷ []) (h, k) = rw (space_hex c h) refl
rstrip_hex (c ∷ d ∷ s) (h, k) = let e = rstrip_hex (d ∷ s) k in ap (rstrip_cons c) e

rstrip_line : (s : Text) → IsHex s → rstrip (s ++ 10 ∷ []) ≡ s
unfolding rstrip IsHex is_space nat_eq
rstrip_line [] h = refl
rstrip_line (c ∷ []) (h, k) = rw (space_hex c h) refl
rstrip_line (c ∷ d ∷ s) (h, k) = let e = rstrip_line (d ∷ s) k in ap (rstrip_cons c) e

lstrip_hex : (c : ℕ) (s : Text) → is_hex c ≡ true → lstrip (c ∷ s) ≡ c ∷ s
unfolding lstrip
lstrip_hex c s h = rw (space_hex c h) refl

pub strip_hex : (s : Text) → IsHex s → strip s ≡ s
unfolding strip IsHex lstrip rstrip
strip_hex [] h = refl
strip_hex (c ∷ s) h = rw (lstrip_hex c s h.0) (rstrip_hex (c ∷ s) h)

pub strip_line : (s : Text) → IsHex s → strip (s ++ 10 ∷ []) ≡ s
unfolding strip IsHex lstrip rstrip is_space nat_eq
strip_line [] h = refl
strip_line (c ∷ s) h = rw (lstrip_hex c (s ++ 10 ∷ []) h.0) (rstrip_line (c ∷ s) h)

-- What the documentation says of `hexdigest`: 64 lower-case hexadecimal digits.
pub record IsHexdigest (sha256 : Bytes → Text) : Type 0 where
  pub hex : (contents : Bytes) → IsHex (sha256 contents)
  pub size : (contents : Bytes) → length (sha256 contents) ≡ 64

is_digest_hex : (t : Text) → IsHex t → length t ≡ 64 → is_digest (λ _. t) t ≡ true
is_digest_hex [] h l = absurd (ground arith)
is_digest_hex (c ∷ s) h l =
    let (m, e) = int_hex c s h (strip_hex (c ∷ s) h) in rw (e, is_digest) (ground arith)

module _ (sha256 : Bytes → Text) (D : IsHexdigest sha256) where
  -- A digest passes the tests of its own contents.
  pub matches_digest : (contents : Bytes) → matches sha256 (some (sha256 contents, contents)) ≡ true
  unfolding matches
  matches_digest contents =
      let digest : is_digest sha256 (sha256 contents) ≡ true =
        is_digest_hex (sha256 contents) (D.hex contents) (D.size contents) in
      rw (digest, lower_hex (sha256 contents) (D.hex contents)) (ground arith)
