-- ===== src/Disk/Temporary.antt =====
-- Temporary files.
use nexguard_sentinel.Prelude.{
  ◌<◌, false, Option, none, some, List, [], ◌∷◌, ◌++◌, ◌==◌, nats_eq, ◌≡◌, refl, arith, ap, ◌∙◌,
  Bool-cases, inl, inr, length,
}
use nexguard_sentinel.Python.Text.{Text}
use nexguard_sentinel.Disk.{
  Disk, FilePath, File, same_path, lookup, mkstemp, dir_gid, has_dir, is_free, pick, create_picked,
}
use nexguard_sentinel.Disk.Post.{Post, syscall-Post}
use nexguard_sentinel.Disk.Calls.{Holds}

-- A path that `mkstemp` may choose.
pub record IsTemp (stem : FilePath) (suffix : Text) (p : FilePath) : Type 0 where
  pub token : Text
  pub chosen : p.name ≡ stem.name ++ token ++ suffix

pick-IsTemp :
    (stem : FilePath) (suffix : Text) (tokens : List Text) (files : List (FilePath × File))
    (p : FilePath) (left : List Text)
    → pick stem suffix tokens files ≡ some (p, left)
    → IsTemp stem suffix p
unfolding pick
pick-IsTemp stem suffix [] files p left e = absurd (ground arith)
pick-IsTemp stem suffix (t ∷ tokens) files p left e =
    elim (Bool-cases
      (is_free (lookup (record { parent = stem.parent; name = stem.name ++ t ++ suffix }) files))) [
        | inl free ↦ record { token = t; chosen = ground arith }
        | inr taken ↦ pick-IsTemp stem suffix tokens files p left (ground arith)
      ]

-- A name that is longer than what it is made from is another name.
pub longer-differs : (a b : Text) → length b < length a → (a == b) ≡ false
longer-differs a b h = elim (Bool-cases (a == b)) [
  | inr f ↦ f
  | inl t ↦ absurd (let e : a ≡ b = ground arith in let l = ap length e in omega arith)
]

module _ (q : FilePath) (old : Option File) (stem : FilePath) (suffix : Text)
    (other : (p : FilePath) → IsTemp stem suffix p → same_path p q ≡ false) where
  -- A temporary file that was made, beside what was there.
  pub record Made (p : FilePath) (t : Disk) : Type 0 where
    pub differs : same_path p q ≡ false
    pub file : File
    pub there : lookup p t.files ≡ some file
    pub holds : Holds q old t

  create_picked-Post :
      (o : Option (FilePath × List Text)) (t : Disk)
      → ((p : FilePath) (left : List Text) → o ≡ some (p, left) → IsTemp stem suffix p)
      → Holds q old t
      → Post (create_picked o) t (λ p u. Made p u) (Holds q old)
  unfolding lookup
  create_picked-Post none t i h = h
  create_picked-Post (some (p, left)) t i h = record {
    differs = other p (i p left refl);
    file = record { contents = []; mode = 0o600; gid = t.group };
    there = ground arith;
    holds = rw (other p (i p left refl)) h;
  }

  pub mkstemp-Post :
      (s : Disk) → Holds q old s → Post (mkstemp stem suffix) s (λ p u. Made p u) (Holds q old)
  unfolding mkstemp
  mkstemp-Post s h =
      syscall-Post _ s (λ p u. Made p u) (Holds q old) (λ t e. ap (lookup q) e ∙ h)
        (λ t e _. elim (Bool-cases (has_dir (dir_gid stem.parent t.dirs))) [
          | inl y ↦ rw y (
              create_picked-Post (pick stem suffix t.tokens t.files) t
                (pick-IsTemp stem suffix t.tokens t.files) (ap (lookup q) e ∙ h))
          | inr n ↦ rw n (ap (lookup q) e ∙ h)
        ])
