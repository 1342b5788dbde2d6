-- ===== src/Controller/Backup/Retention/Removal.antt =====
-- What the removal of backups leaves of the names in a directory.
use nexguard_sentinel.Prelude.{
  ◌≤◌, Bool, not, ◌&&◌, List, [], ◌∷◌, contains, ◌==◌, nats_eq, ◌≡◌, refl, ap, ◌∙◌, arith,
}
use nexguard_sentinel.Python.Exec.{modify}
use nexguard_sentinel.Python.Text.{Text}
use nexguard_sentinel.Disk.{FilePath, Disk, remove, unlink}
use nexguard_sentinel.Disk.Post.{Post, Post-bind, Post-then, syscall-Post}
use nexguard_sentinel.Controller.Backup.{checksum_path_for}
use nexguard_sentinel.Controller.Backup.Fresh.{Whatever}
use nexguard_sentinel.Controller.Backup.Create.{remove_backups}
use nexguard_sentinel.Controller.Backup.Retention.Counting.{
  count_if, listed, listed-remove, listed-remove_backup, count_if-same,
}

-- What has been removed is gone.
abbrev pub Gone : Text → List Text → Disk → Unit {0} → Disk → Type 0
Gone d names s _ t =
    (t.dirs ≡ s.dirs)
    × ((q : Text → Bool)
        → count_if q (listed d t.files)
          ≤ count_if (λ n. q n && not (contains names n)) (listed d s.files))

pub unlink-removes :
    (p : FilePath) (s : Disk)
    → Post (unlink p) s (λ _ t. (t.files ≡ remove p s.files) × (t.dirs ≡ s.dirs)) Whatever
unfolding unlink
unlink-removes p s =
    syscall-Post (modify (λ (t : Disk). record t { files = remove p t.files })) s _ Whatever
      (λ t e. tt) (λ t e g. (ap (remove p) e, g))

module _ (d : Text) where
  gone_next :
      (n : Text) (names : List Text) (s t u v : Disk)
      → t.files ≡ remove (checksum_path_for (record { parent = d; name = n })) s.files
      → u.files ≡ remove (record { parent = d; name = n }) t.files
      → ((q : Text → Bool)
          → count_if q (listed d v.files)
            ≤ count_if (λ m. q m && not (contains names m)) (listed d u.files))
      → (q : Text → Bool)
      → count_if q (listed d v.files)
        ≤ count_if (λ m. q m && not (contains (n ∷ names) m)) (listed d s.files)
  gone_next n names s t u v e f g q =
      let p : FilePath = record { parent = d; name = n } in
      let r : Text → Bool = λ m. q m && not (contains names m) in
      let r' : Text → Bool = λ m. r m && not (m == n) in
      let last = g q in
      let pair = listed-remove_backup d r n t.files in
      let sum = listed-remove d r' (checksum_path_for p) s.files in
      let x = ap (λ files. count_if r (listed d files)) f in
      let y = ap (λ files. count_if r' (listed d files)) e in
      let z =
        count_if-same r' (λ m. q m && not (contains (n ∷ names) m)) (listed d s.files)
          (λ m. ground arith) in
      omega arith

  pub remove_backups-Gone :
      (names : List Text) (s : Disk) → Post (remove_backups d names) s (Gone d names s) Whatever
  unfolding remove_backups
  remove_backups-Gone [] s = (
    refl,
    λ q.
        let e =
          count_if-same q (λ n. q n && not (contains [] n)) (listed d s.files)
            (λ n. ground arith) in
        omega arith,
  )
  remove_backups-Gone (n ∷ names) s =
      let p : FilePath = record { parent = d; name = n } in
      Post-bind (λ _ t. (t.files ≡ remove (checksum_path_for p) s.files) × (t.dirs ≡ s.dirs))
        (Gone d (n ∷ names) s) Whatever (unlink (checksum_path_for p)) _ s
        (unlink-removes (checksum_path_for p) s)
        (λ _ t e.
          Post-bind (λ _ u. (u.files ≡ remove p t.files) × (u.dirs ≡ t.dirs)) (Gone d (n ∷ names) s)
            Whatever (unlink p) _ t (unlink-removes p t)
            (λ _ u f.
              Post-then (Gone d names u) (Gone d (n ∷ names) s) Whatever (remove_backups d names) u
                (remove_backups-Gone names u)
                (λ _ v g. (g.0 ∙ f.1 ∙ e.1, gone_next n names s t u v e.0 f.0 g.1))))
