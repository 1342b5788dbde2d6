-- ===== src/Python/Number/Hex.antt =====
-- `int` of hexadecimal digits.
use nexguard_sentinel.Prelude.{
  ℕ, ◌+◌, ◌*◌, ◌-◌, Bool, true, false, ◌&&◌, ◌||◌, some, [], ◌∷◌, ltb, leb, ◌==◌, nat_eq, pos, ◌≡◌,
  refl, arith, Bool-cases, inl, inr,
}
use nexguard_sentinel.Python.Text.{Text, strip}
use nexguard_sentinel.Python.Number.{
  digit, digits, in_block, skip_prefix, magnitude, int_signed, int, is_zero,
}

abbrev pub is_hex : ℕ → Bool
is_hex c = (leb 48 c && leb c 57) || (leb 97 c && leb c 102)

-- Lower-case hexadecimal digits only.
unfoldable pub IsHex : Text → Type 0
IsHex [] = Unit
IsHex (c ∷ s) = (is_hex c ≡ true) × IsHex s

digit_hex : (c : ℕ) → is_hex c ≡ true → (d : ℕ) × (digit c ≡ some d) × (ltb d 16 ≡ true)
unfolding digit in_block
digit_hex c h = elim (Bool-cases (leb 48 c && leb c 57)) [
  | inl t ↦ (c - 48, ground arith, ground arith)
  | inr f ↦ (c - 97 + 10, ground arith, ground arith)
]

digits_hex : (s : Text) (n : ℕ) → IsHex s → (m : ℕ) × (digits 16 true n s ≡ some m)
unfolding digits IsHex
digits_hex [] n h = (n, refl)
digits_hex (c ∷ s) n (h, k) =
    let (d, e, l) = digit_hex c h in
    let (m, r) = digits_hex s (n * 16 + d) k in
    let f : (c == 95) ≡ false = ground arith in (m, rw (f, e, l) r)

no_x : (b c : Bool) (x : ℕ) → is_hex x ≡ true → (b && c && (x == b'x' || x == b'X')) ≡ false
no_x true true x h = ground arith
no_x true false x h = refl
no_x false c x h = refl

skip_prefix_hex : (c : ℕ) (s : Text) → IsHex (c ∷ s) → skip_prefix 16 (c ∷ s) ≡ c ∷ s
unfolding skip_prefix IsHex
skip_prefix_hex c [] h = refl
skip_prefix_hex c (x ∷ s) (h, (k, l)) =
    let base : ℕ = 16 in rw (no_x (base == 16) (is_zero (digit c)) x k) refl

magnitude_hex : (c : ℕ) (s : Text) → IsHex (c ∷ s) → (m : ℕ) × (magnitude 16 (c ∷ s) ≡ some m)
unfolding magnitude digits IsHex nat_eq
magnitude_hex c s h =
    let (d, e, l) = digit_hex c h.0 in
    let (m, r) = digits_hex s (0 * 16 + d) h.1 in
    let f : (c == 95) ≡ false = ground (arith, h.0) in (m, rw (skip_prefix_hex c s h, f, e, l) r)

pub int_hex :
    (c : ℕ) (s : Text)
    → IsHex (c ∷ s)
    → strip (c ∷ s) ≡ c ∷ s
    → (m : ℕ) × (int 16 (c ∷ s) ≡ some (pos m))
unfolding int int_signed IsHex
int_hex c s h e =
    let (m, r) = magnitude_hex c s h in
    let plus : (c == b'+') ≡ false = ground (arith, h.0) in
    let minus : (c == b'-') ≡ false = ground (arith, h.0) in (m, rw (e, plus, minus, r) refl)
