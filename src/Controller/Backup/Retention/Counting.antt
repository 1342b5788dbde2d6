-- ===== src/Controller/Backup/Retention/Counting.antt =====
-- Counting the complete backups of a directory, as files are removed.
use nexguard_sentinel.Prelude.{
  ℕ, ◌+◌, ◌≤◌, Bool, true, false, not, ◌&&◌, List, [], ◌∷◌, leb, length, contains, ◌==◌, nats_eq,
  if◌then◌else◌, ◌≡◌, refl, arith, Bool-cases, inl, inr,
}
use nexguard_sentinel.Python.Text.{Text}
use nexguard_sentinel.Disk.{FilePath, File, same_path, lookup, remove, is_free}
use nexguard_sentinel.Disk.Laws.{lookup-remove}
use nexguard_sentinel.Controller.Backup.{
  checksum_path_for, insert_name, sort_names, is_backup_name, names_in, complete,
}
use nexguard_sentinel.Controller.Backup.Create.{all_but_last}

-- How many of the names pass a test.
unfoldable pub count_if : (Text → Bool) → List Text → ℕ
count_if q [] = 0
count_if q (n ∷ names) = (if q n then 1 else 0) + count_if q names

count_if-length : (q : Text → Bool) (names : List Text) → count_if q names ≤ length names
unfolding count_if
count_if-length q [] = ground arith
count_if-length q (n ∷ names) = ground (arith, count_if-length q names)

pub count_if-true : (names : List Text) → length names ≡ count_if (λ _. true) names
unfolding count_if
count_if-true [] = ground arith
count_if-true (n ∷ names) = ground (arith, count_if-true names)

count_if-insert_name :
    (q : Text → Bool) (n : Text) (names : List Text)
    → count_if q (insert_name n names) ≡ (if q n then 1 else 0) + count_if q names
unfolding count_if insert_name
count_if-insert_name q n [] = ground arith
count_if-insert_name q n (m ∷ names) = ground (arith, count_if-insert_name q n names)

pub count_if-sort_names :
    (q : Text → Bool) (names : List Text) → count_if q (sort_names names) ≡ count_if q names
unfolding count_if sort_names
count_if-sort_names q [] = refl
count_if-sort_names q (n ∷ names) =
    ground (arith, count_if-insert_name q n (sort_names names), count_if-sort_names q names)

-- Every name of the list is in `gone`.
pub Covers : List Text → List Text → Type 0
Covers gone [] = Unit
Covers gone (n ∷ names) = (contains gone n ≡ true) × Covers gone names

Covers-more : (m : Text) (gone names : List Text) → Covers gone names → Covers (m ∷ gone) names
unfolding Covers
Covers-more m gone [] h = tt
Covers-more m gone (n ∷ names) (h, k) = (ground arith, Covers-more m gone names k)

pub Covers-same : (names : List Text) → Covers names names
unfolding Covers
Covers-same [] = tt
Covers-same (n ∷ names) = (ground arith, Covers-more n names names (Covers-same names))

pub count_if-all_but_last :
    (k : ℕ) (gone names : List Text)
    → Covers gone (all_but_last k names)
    → count_if (λ n. not (contains gone n)) names ≤ k
unfolding count_if all_but_last Covers
count_if-all_but_last k gone [] h = ground arith
count_if-all_but_last k gone (n ∷ names) h = elim (Bool-cases (leb k (length names))) [
  | inl y ↦
      let (here, rest) : Covers gone (n ∷ all_but_last k names) = rw y at h in
      let less = count_if-all_but_last k gone names rest in ground arith
  | inr f ↦ let less = count_if-length (λ m. not (contains gone m)) names in ground arith
]

-- The names of the complete backups, unsorted.
abbrev pub listed : Text → List (FilePath × File) → List Text
listed d files = complete d files (names_in d files)

module _ (d : Text) (q r : Text → Bool) (p : FilePath) (before after : List (FilePath × File))
    (missing : (c : FilePath) → is_free (lookup c before) ≡ true → is_free (lookup c after) ≡ true)
    (passes : (path : FilePath)
      → same_path path p ≡ false
      → (path.parent == d) ≡ true
      → q path.name ≡ true
      → r path.name ≡ true) where
  name-less :
      (path : FilePath) (names later : List Text)
      → same_path path p ≡ false
      → (path.parent == d) ≡ true
      → count_if q (complete d after later) ≤ count_if r (complete d before names)
      → count_if q (complete d after (path.name ∷ later))
        ≤ count_if r (complete d before (path.name ∷ names))
  unfolding count_if complete
  name-less path names later differs there h =
      let c = checksum_path_for (record { parent = d; name = path.name }) in
      let free = missing c in
      let pass = passes path differs there in
      elim (Bool-cases (is_free (lookup c before))) [
        | inl y ↦ let z = free y in ground arith
        | inr n ↦ elim (Bool-cases (q path.name)) [
          | inl t ↦ let z = pass t in ground arith
          | inr f ↦ ground arith
        ]
      ]

  name-more :
      (n : Text) (names : List Text)
      → count_if r (complete d before names) ≤ count_if r (complete d before (n ∷ names))
  unfolding count_if complete
  name-more n names =
      let c = checksum_path_for (record { parent = d; name = n }) in
      elim (Bool-cases (is_free (lookup c before))) [ inl y ↦ ground arith | inr f ↦ ground arith ]

  remove-less :
      (files : List (FilePath × File))
      → count_if q (complete d after (names_in d (remove p files)))
        ≤ count_if r (complete d before (names_in d files))
  unfolding count_if complete names_in remove
  remove-less [] = ground arith
  remove-less ((path, f) ∷ files) =
      let less = remove-less files in
      elim (Bool-cases (same_path path p)) [
        | inl y ↦ rw y (elim (Bool-cases (path.parent == d && is_backup_name path.name)) [
          | inl t ↦ rw t (let more = name-more path.name (names_in d files) in omega arith)
          | inr f ↦ rw f less
        ])
        | inr n ↦ rw n (elim (Bool-cases (path.parent == d && is_backup_name path.name)) [
          | inl t ↦ rw t (name-less path _ _ n (ground arith) less)
          | inr f ↦ rw f less
        ])
      ]

still_missing :
    (p c : FilePath) (files : List (FilePath × File))
    → is_free (lookup c files) ≡ true
    → is_free (lookup c (remove p files)) ≡ true
still_missing p c files h =
    let e = lookup-remove p c files in
    elim (Bool-cases (same_path p c)) [ inl y ↦ ground arith | inr n ↦ ground arith ]

-- Removing any file lists no more names.
pub listed-remove :
    (d : Text) (q : Text → Bool) (p : FilePath) (files : List (FilePath × File))
    → count_if q (listed d (remove p files)) ≤ count_if q (listed d files)
listed-remove d q p files =
    remove-less d q q p files (remove p files) (λ c h. still_missing p c files h) (λ _ _ _ h. h)
      files

-- Removing a backup takes its name off.
pub listed-remove_backup :
    (d : Text) (q : Text → Bool) (n : Text) (files : List (FilePath × File))
    → count_if q (listed d (remove (record { parent = d; name = n }) files))
      ≤ count_if (λ m. q m && not (m == n)) (listed d files)
listed-remove_backup d q n files =
    let p : FilePath = record { parent = d; name = n } in
    remove-less d q (λ m. q m && not (m == n)) p files (remove p files)
      (λ c h. still_missing p c files h) (λ path differs there h. ground arith) files

pub count_if-same :
    (q r : Text → Bool) (names : List Text)
    → ((n : Text) → q n ≡ r n)
    → count_if q names ≡ count_if r names
unfolding count_if
count_if-same q r [] h = refl
count_if-same q r (n ∷ names) h =
    let here = h n in let rest = count_if-same q r names h in ground arith
