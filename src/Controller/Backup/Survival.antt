-- ===== src/Controller/Backup/Survival.antt =====
-- What `create_backup` does after it has written a backup leaves of it: the pair of files, or nothing
-- if it was pruned.
pub mod Names
use nexguard_sentinel.Prelude.{
  ℕ, zero, suc, Bool, true, false, Option, none, some, List, [], ◌∷◌, ◌++◌, ◌==◌, nats_eq, contains,
  if◌then◌else◌, ◌≡◌, refl, sym, ap, ◌∙◌, arith, Bool-cases, inl, inr,
}
use nexguard_sentinel.Python.Exec.{Result, ok, err, lift, on_error, ◌>>=◌, ◌>>◌, pure}
use nexguard_sentinel.Python.Text.{Text, codes, strip}
use nexguard_sentinel.Disk.{
  Bytes, FilePath, Disk, same_path, lookup, remove, unlink, replace, read_file,
}
use nexguard_sentinel.Disk.Laws.{lookup-remove}
use nexguard_sentinel.Disk.Post.{Split, Post, Post-bind, Post-then, Post-weaken, on_error-Post}
use nexguard_sentinel.Disk.Calls.{SameFiles, read_file-Post}
use nexguard_sentinel.Controller.Backup.{
  checksum_path_for, temp_stem, is_backup_name, list_backups, backup_names, ascii, decoded,
}
use nexguard_sentinel.Controller.Backup.Complete.{at}
use nexguard_sentinel.Controller.Backup.Create.{
  Manifest, remove_backups, removable, prune_backups, write_temp_file, manifest_entries,
  write_manifest,
}
use nexguard_sentinel.Controller.Backup.Fresh.{Whatever, anyhow, Temp, write_temp_file-Temp}
use nexguard_sentinel.Controller.Backup.Written.{
  begins, temp-differs, undotted, Moved, replace-Moved, Pair,
}
use nexguard_sentinel.Controller.Backup.Listing.{
  Listed, read, unread, Listing, list_backups-Listing,
}
use nexguard_sentinel.Controller.Backup.Retention.Removal.{unlink-removes}
use nexguard_sentinel.Controller.Backup.Survival.Names.{
  name-differs, sum-differs, manifest-differs, AreNamed, backup_names-AreNamed, removable-AreNamed,
}

module _ (d base : Text) (contents checksum : Bytes) (named : is_backup_name base ≡ true) where
  abbrev backup : FilePath
  backup = at d base

  abbrev sum : FilePath
  sum = checksum_path_for backup

  -- The pair is whole, or the backup is not there.
  pub data Stands (t : Disk) : Type 0 where
    whole : Pair backup contents checksum t → Stands t
    gone : lookup backup t.files ≡ none → Stands t

  Stands-same :
      (s t : Disk)
      → lookup backup t.files ≡ lookup backup s.files
      → lookup sum t.files ≡ lookup sum s.files
      → Stands s
      → Stands t
  Stands-same s t e f (gone h) = gone (e ∙ h)
  Stands-same s t e f (whole p) = whole (record {
    file = p.file;
    file_there = e ∙ p.file_there;
    file_holds = p.file_holds;
    sum = p.sum;
    sum_there = f ∙ p.sum_there;
    sum_holds = p.sum_holds;
  })

  Stands-files : (s t : Disk) → SameFiles s t → Stands s → Stands t
  Stands-files s t e h = Stands-same s t (ap (lookup backup) e) (ap (lookup sum) e) h

  -- A backup is removed with its checksum file: this one, or another.
  removed-Stands :
      (n : Text) (s t u : Disk)
      → is_backup_name n ≡ true
      → t.files ≡ remove (checksum_path_for (at d n)) s.files
      → u.files ≡ remove (at d n) t.files
      → Stands s
      → Stands u
  unfolding checksum_path_for
  removed-Stands n s t u k e f h = elim (Bool-cases (n == base)) [
    | inl y ↦ gone (ap (lookup backup) f ∙ lookup-remove (at d n) backup t.files ∙ ground arith)
    | inr o ↦
        let a = name-differs base n named in
        let b = name-differs n base k in
        let c = sum-differs n base o in
        Stands-same s u
          (ap (lookup backup) f
            ∙ lookup-remove (at d n) backup t.files
            ∙ ground (
              arith,
              ap (lookup backup) e,
              lookup-remove (checksum_path_for (at d n)) backup s.files,
            ))
          (ap (lookup sum) f
            ∙ lookup-remove (at d n) sum t.files
            ∙ ground
                (arith, ap (lookup sum) e, lookup-remove (checksum_path_for (at d n)) sum s.files))
          h
  ]

  remove_backups-Stands :
      (names : List Text) (s : Disk)
      → AreNamed names
      → Stands s
      → Post (remove_backups d names) s (λ _ t. Stands t) Whatever
  unfolding remove_backups
  remove_backups-Stands [] s k h = h
  remove_backups-Stands (n ∷ names) s k h =
      Post-bind (λ _ t. (t.files ≡ remove (checksum_path_for (at d n)) s.files) × (t.dirs ≡ s.dirs))
        _ Whatever (unlink (checksum_path_for (at d n))) _ s
        (unlink-removes (checksum_path_for (at d n)) s)
        (λ _ t e.
          Post-bind (λ _ u. (u.files ≡ remove (at d n) t.files) × (u.dirs ≡ t.dirs)) _ Whatever
            (unlink (at d n)) _ t (unlink-removes (at d n) t)
            (λ _ u f.
              remove_backups-Stands names u (λ m c. k m (ground arith))
                (removed-Stands n s t u (k n (ground arith)) e.0 f.0 h)))

  Listed-AreNamed : (names : List Text) (t : Disk) → Listed d names t → AreNamed names
  Listed-AreNamed names t (read e) n c = backup_names-AreNamed d t n (rw e at c)
  Listed-AreNamed names t (unread e) n c = absurd (ground arith)

  pub prune_backups-Stands :
      (count : ℕ) (s : Disk) → Stands s → Post (prune_backups d count) s (λ _ t. Stands t) Whatever
  unfolding prune_backups
  prune_backups-Stands count s h =
      Post-bind (Listing d s) _ Whatever (list_backups d) _ s
        (list_backups-Listing d s Whatever (λ _ _. tt))
        (λ names t (l, files, _).
          remove_backups-Stands (removable count names) t
            (removable-AreNamed count names (Listed-AreNamed names t l)) (Stands-files s t files h))

  -- Reading the checksum files changes none.
  manifest_entries-Stands :
      (names : List Text) (s : Disk)
      → Stands s
      → Post (manifest_entries d names) s (λ _ t. Stands t) Whatever
  unfolding manifest_entries
  manifest_entries-Stands [] s h = h
  manifest_entries-Stands (n ∷ names) s h =
      Post-bind (λ _ t. Stands t) _ Whatever (read_file (checksum_path_for (at d n))) _ s
        (Post-weaken _ (SameFiles s) Whatever (read_file _) s
          (Post-then _ _ (SameFiles s) (read_file _) s (read_file-Post s s refl _)
            (λ _ t e. Stands-files s t e.1 h))
          (λ _ _. tt))
        (λ file t k.
          Post-bind (λ _ u. Stands u) _ Whatever (lift (decoded (ascii file.contents))) _ t
            (lifted (decoded (ascii file.contents)) t k)
            (λ sha u l.
              Post-bind (λ _ v. Stands v) _ Whatever (manifest_entries d names) _ u
                (manifest_entries-Stands names u l) (λ _ v m. m)))
    where
      lifted :
          {B : Type 0} (r : Result B) (t : Disk)
          → Stands t
          → Split (λ (_ : B) u. Stands u) Whatever r t
      lifted (ok b) t k = k
      lifted (err x) t k = tt

  -- Neither of the two files is a temporary one.
  plain : (begins b'.' backup.name ≡ false) × (begins b'.' sum.name ≡ false)
  unfolding checksum_path_for
  plain = undotted base named

  manifest : FilePath
  manifest = at d (codes "backup-manifest.json")

  -- Nor is it the manifest.
  not_manifest : (same_path manifest backup ≡ false) × (same_path manifest sum ≡ false)
  unfolding manifest checksum_path_for
  not_manifest = let (a, b) = manifest-differs base named in (ground arith, ground arith)

  made-Stands :
      (bytes : Bytes) (s t : Disk) (p : FilePath)
      → Temp (temp_stem manifest) bytes s p t
      → Stands s
      → Stands t
  made-Stands bytes s t p m h =
      Stands-same s t (m.has.others backup (temp-differs manifest backup bytes s t p plain.0 m))
        (m.has.others sum (temp-differs manifest sum bytes s t p plain.1 m)) h

  pub write_manifest-Stands :
      (manifest_json : Manifest → Bytes) (generated_at : Text) (s : Disk)
      → Stands s
      → Post (write_manifest manifest_json d generated_at) s (λ _ t. Stands t) Whatever
  unfolding write_manifest manifest
  write_manifest-Stands manifest_json generated_at s h =
      Post-bind (λ _ t. Stands t) _ Whatever (list_backups d) _ s
        (Post-then _ _ Whatever (list_backups d) s (list_backups-Listing d s Whatever (λ _ _. tt))
          (λ _ t e. Stands-files s t e.1 h))
        (λ names t k.
          Post-bind (λ _ u. Stands u) _ Whatever (manifest_entries d names) _ t
            (manifest_entries-Stands names t k)
            (λ entries u l.
              Post-bind (λ p v. Temp (temp_stem manifest) _ u p v) _ Whatever
                (write_temp_file manifest _) _ u (write_temp_file-Temp manifest _ u)
                (λ p v m.
                  on_error-Post _ Whatever Whatever (replace p manifest) (unlink p) v
                    (Post-then (λ _ w. Moved p manifest m.has.file v w) _ Whatever
                      (replace p manifest) v (replace-Moved p manifest m.has.file v m.has.there)
                      (λ _ w x.
                        Stands-same v w
                          (x.others backup not_manifest.0
                            (temp-differs manifest backup _ u v p plain.0 m))
                          (x.others sum not_manifest.1
                            (temp-differs manifest sum _ u v p plain.1 m))
                          (made-Stands _ u v p m l)))
                    (λ w _. anyhow _ _))))
