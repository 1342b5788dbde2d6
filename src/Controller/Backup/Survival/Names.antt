-- ===== src/Controller/Backup/Survival/Names.antt =====
-- The names of backups and those of their checksum files.
use nexguard_sentinel.Prelude.{
  ℕ, zero, suc, ◌+◌, true, false, List, [], ◌∷◌, ◌++◌, length, contains, leb, ◌==◌, nat_eq, nats_eq,
  ◌≡◌, refl, sym, ap, ◌∙◌, arith, Bool-cases, inl, inr,
}
use mathlib.Core.List.{append_cancel_right}
use nexguard_sentinel.Python.Text.{Text, codes}
use nexguard_sentinel.Disk.{Disk, dir_gid, has_dir}
use nexguard_sentinel.Controller.Backup.{
  has_suffix, has_prefix, drop_text, is_backup_name, backup_names, sort_names, complete, names_in,
}
use nexguard_sentinel.Controller.Backup.Create.{all_but_last, removable}
use nexguard_sentinel.Controller.Backup.Complete.{contains-names_in, contains-complete}
use nexguard_sentinel.Controller.Backup.Sorting.{contains-sort_names}

length-sum : (s : Text) → length (s ++ codes ".sha256") ≡ length s + 7
length-sum [] = refl
length-sum (c ∷ s) = ground (arith, length-sum s)

sum_ends : (s : Text) → has_suffix (codes ".yaml") (s ++ codes ".sha256") ≡ false
unfolding has_suffix nats_eq nat_eq
sum_ends [] = refl
sum_ends (c ∷ s) = elim (Bool-cases (codes ".yaml" == c ∷ s ++ codes ".sha256")) [
  | inl y ↦
      let e : codes ".yaml" ≡ c ∷ s ++ codes ".sha256" = ground arith in
      let l = ap length e in let m = length-sum s in absurd (omega arith)
  | inr n ↦ rw n (sum_ends s)
]

suffix-of_drop :
    (p s : Text)
    → has_suffix (codes ".yaml") (drop_text p s) ≡ true
    → has_suffix (codes ".yaml") s ≡ true
unfolding has_suffix drop_text
suffix-of_drop [] s h = h
suffix-of_drop (c ∷ p) [] h = h
suffix-of_drop (c ∷ p) (e ∷ s) h = let k = suffix-of_drop p s h in ground arith

-- The name of a backup is not that of a checksum file.
pub name-differs : (n s : Text) → is_backup_name n ≡ true → (n == s ++ codes ".sha256") ≡ false
unfolding is_backup_name
name-differs n s h = elim (Bool-cases (n == s ++ codes ".sha256")) [
  | inl y ↦
      let e : n ≡ s ++ codes ".sha256" = ground arith in
      let k = suffix-of_drop (codes "gateway-") n (ground arith) in
      let f = sum_ends s in
      let g : has_suffix (codes ".yaml") n ≡ false = rw e f in absurd (ground arith)
  | inr f ↦ f
]

pub sum-differs :
    (n m : Text) → (n == m) ≡ false → (n ++ codes ".sha256" == m ++ codes ".sha256") ≡ false
sum-differs n m h = elim (Bool-cases (n ++ codes ".sha256" == m ++ codes ".sha256")) [
  | inl y ↦
      let e : n ++ codes ".sha256" ≡ m ++ codes ".sha256" = ground arith in
      let f = append_cancel_right n m (codes ".sha256") e in absurd (ground arith)
  | inr f ↦ f
]

-- All of the names are those of backups.
abbrev pub AreNamed : List Text → Type 0
AreNamed names = (n : Text) → contains names n ≡ true → is_backup_name n ≡ true

pub backup_names-AreNamed : (d : Text) (s : Disk) → AreNamed (backup_names d s)
unfolding backup_names
backup_names-AreNamed d s n h = elim (Bool-cases (has_dir (dir_gid d s.dirs))) [
  | inl y ↦
      let names = complete d s.files (names_in d s.files) in
      let k : contains (sort_names names) n ≡ true = rw y at h in
      (contains-names_in d n s.files
        (contains-complete d n s.files (names_in d s.files)
          (sym (contains-sort_names n names) ∙ k)).0).0
  | inr f ↦ let k : contains [] n ≡ true = rw f at h in absurd (ground arith)
]

all_but_last-contains :
    (k : ℕ) (names : List Text) (n : Text)
    → contains (all_but_last k names) n ≡ true
    → contains names n ≡ true
unfolding all_but_last
all_but_last-contains k [] n h = h
all_but_last-contains k (m ∷ names) n h = elim (Bool-cases (leb k (length names))) [
  | inl y ↦ ground (arith, all_but_last-contains k names n)
  | inr f ↦ absurd (ground arith)
]

pub removable-AreNamed : (k : ℕ) (names : List Text) → AreNamed names → AreNamed (removable k names)
removable-AreNamed zero names h n c = absurd (ground arith)
removable-AreNamed (suc k) names h n c = h n (all_but_last-contains (suc k) names n c)

-- Nor is it the name of the manifest.
pub manifest-differs :
    (n : Text)
    → is_backup_name n ≡ true
    → ((codes "backup-manifest.json" == n) ≡ false)
      × ((codes "backup-manifest.json" == n ++ codes ".sha256") ≡ false)
unfolding is_backup_name has_prefix
manifest-differs [] h = absurd (ground arith)
manifest-differs (c ∷ n) h = (ground arith, ground arith)
