-- ===== src/Controller/Backup/Complete.antt =====
-- The complete backups of a directory, and the latest of them.
use nexguard_sentinel.Prelude.{
  Bool, true, false, ◌==◌, contains, nats_eq, some, List, [], ◌∷◌, ◌≡◌, refl, ap, ◌∙◌, sym, arith,
  Bool-cases, inl, inr,
}
use nexguard_sentinel.Python.Text.{Text}
use nexguard_sentinel.Python.Exec.{ok}
use nexguard_sentinel.Disk.{FilePath, File, Disk, lookup, syscall, fault, is_free, has_dir, dir_gid}
use nexguard_sentinel.Controller.Backup.{
  text_le, sort_names, last, names_in, complete, is_backup_name, checksum_path_for, backup_names,
  scan_backups, list_backups, get_latest_backup,
}
use nexguard_sentinel.Controller.Backup.Sorting.{
  Reaches, sort_names-IsSorted, contains-sort_names, sorted-Reaches,
}

abbrev pub at : Text → Text → FilePath
at d n = record { parent = d; name = n }

names_in-contains :
    (d n : Text) (files : List (FilePath × File))
    → is_free (lookup (at d n) files) ≡ false
    → is_backup_name n ≡ true
    → contains (names_in d files) n ≡ true
unfolding lookup names_in
names_in-contains d n [] l b = absurd (ground arith)
names_in-contains d n ((p, g) ∷ files) l b = ground (arith, names_in-contains d n files)

complete-contains :
    (d n : Text) (files : List (FilePath × File)) (names : List Text)
    → is_free (lookup (checksum_path_for (at d n)) files) ≡ false
    → contains names n ≡ true
    → contains (complete d files names) n ≡ true
unfolding complete
complete-contains d n files [] l h = absurd (ground arith)
complete-contains d n files (x ∷ names) l h = elim (Bool-cases (n == x)) [
  | inl t ↦
      let e : n ≡ x = ground arith in
      let there : is_free (lookup (checksum_path_for (at d x)) files) ≡ false =
        ap (λ z. is_free (lookup (checksum_path_for (at d z)) files)) (sym e) ∙ l in
      rw there (ground arith)
  | inr f ↦ ground (arith, complete-contains d n files names l)
]

-- A file is there, its name is that of a backup, and so is its checksum file.
pub record IsComplete (d : Text) (s : Disk) (n : Text) : Type 0 where
  pub is_named : is_backup_name n ≡ true
  pub file_there : is_free (lookup (at d n) s.files) ≡ false
  pub checksum_there : is_free (lookup (checksum_path_for (at d n)) s.files) ≡ false

pub contains-names_in :
    (d n : Text) (files : List (FilePath × File))
    → contains (names_in d files) n ≡ true
    → (is_backup_name n ≡ true) × (is_free (lookup (at d n) files) ≡ false)
unfolding lookup names_in
contains-names_in d n [] h = absurd (ground arith)
contains-names_in d n ((p, g) ∷ files) h = ground (arith, contains-names_in d n files)

pub contains-complete :
    (d n : Text) (files : List (FilePath × File)) (names : List Text)
    → contains (complete d files names) n ≡ true
    → (contains names n ≡ true) × (is_free (lookup (checksum_path_for (at d n)) files) ≡ false)
unfolding complete
contains-complete d n files [] h = absurd (ground arith)
contains-complete d n files (x ∷ names) h = elim (Bool-cases (n == x)) [
  | inr f ↦ ground (arith, contains-complete d n files names)
  | inl t ↦
      let e : n ≡ x = ground arith in
      elim (Bool-cases (is_free (lookup (checksum_path_for (at d x)) files))) [
        | inl free ↦ let i = contains-complete d n files names (ground arith) in (ground arith, i.1)
        | inr taken ↦
            (ground arith, ap (λ z. is_free (lookup (checksum_path_for (at d z)) files)) e ∙ taken)
      ]
]

last-contains : (names : List Text) (n : Text) → last names ≡ some n → contains names n ≡ true
last-contains [] n h = absurd (ground arith)
last-contains (x ∷ names) n h = ground (arith, last-contains names n)

module _ (d : Text) (s : Disk) (dir : has_dir (dir_gid d s.dirs) ≡ true) where
  backup_names-Reaches : (n : Text) → IsComplete d s n → Reaches n (backup_names d s)
  unfolding backup_names
  backup_names-Reaches n c = rw dir (
      sorted-Reaches n (sort_names (complete d s.files (names_in d s.files)))
        (sort_names-IsSorted _)
        (contains-sort_names n (complete d s.files (names_in d s.files))
          ∙ complete-contains d n s.files (names_in d s.files) c.checksum_there
              (names_in-contains d n s.files c.file_there c.is_named)))

  last-IsComplete : (n : Text) → last (backup_names d s) ≡ some n → IsComplete d s n
  unfolding backup_names
  last-IsComplete n l =
      let names = complete d s.files (names_in d s.files) in
      let l' : last (sort_names names) ≡ some n = ground arith in
      let c =
        contains-complete d n s.files (names_in d s.files)
          (sym (contains-sort_names n names) ∙ last-contains (sort_names names) n l') in
      let i = contains-names_in d n s.files c.0 in
      record { is_named = i.0; file_there = i.1; checksum_there = c.1 }

fault-quiet : (faults : List Bool) (s : Disk) → faults ≡ [] → fault faults s ≡ (ok tt, s)
fault-quiet [] s h = refl
fault-quiet (b ∷ faults) s h = absurd (ground arith)

-- If a directory has a complete backup and reading it does not fail, then `get_latest_backup`
-- returns a complete backup, and none that is complete has a name after its name.
pub get_latest_backup-greatest :
    (d n : Text) (s : Disk)
    → s.faults ≡ []
    → has_dir (dir_gid d s.dirs) ≡ true
    → IsComplete d s n
    → (m : Text) × ((get_latest_backup d s).0 ≡ ok (some (at d m)))
      × IsComplete d s m
      × (text_le n m ≡ true)
unfolding get_latest_backup list_backups scan_backups syscall
get_latest_backup-greatest d n s quiet dir c =
    let (m, l, h) = backup_names-Reaches d s dir n c in
    (
      m,
      rw (fault-quiet s.faults s quiet, dir, fault-quiet s.faults s quiet, l) refl,
      last-IsComplete d s dir m l,
      h,
    )
