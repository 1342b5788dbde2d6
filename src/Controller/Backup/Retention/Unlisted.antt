-- ===== src/Controller/Backup/Retention/Unlisted.antt =====
-- The manifest and its temporary file add no backup to a directory.
use nexguard_sentinel.Prelude.{
  false, Option, none, some, List, [], ◌∷◌, ◌++◌, nat_eq, nats_eq, ◌≡◌, refl, ap, ◌∙◌, arith,
  Bool-cases, inl, inr,
}
use nexguard_sentinel.Python.Exec.{Result, ok, err, pure, lift, on_error}
use nexguard_sentinel.Python.Text.{Text, codes}
use nexguard_sentinel.Disk.{
  Bytes, FilePath, Disk, read_file, stat_dir, unlink, replace, write, chmod, mkstemp, pick,
  create_picked, dir_gid, has_dir,
}
use nexguard_sentinel.Disk.Post.{Split, Post, Post-bind, Post-then, on_error-Post}
use nexguard_sentinel.Controller.Backup.Listing.{Listing, list_backups-Listing}
use nexguard_sentinel.Controller.Backup.{temp_stem, list_backups, decoded, ascii}
use nexguard_sentinel.Controller.Backup.Create.{
  fill_temp_file, write_temp_file, manifest_entries, Manifest, write_manifest,
}
use nexguard_sentinel.Controller.Backup.Fresh.{Whatever, anyhow, pick-fresh}
use nexguard_sentinel.Controller.Backup.Written.{begins}
use nexguard_sentinel.Controller.Backup.Retention.Fewer.{
  Less, Less-same, Less-then, syscall-Less, alter-Less, replace-Less, read_file-Less, stat_dir-Less,
  listed-cons,
}

module _ (d : Text) where
  dotted : (n token suffix m : Text) → m ≡ (b'.' ∷ n) ++ token ++ suffix → begins b'g' m ≡ false
  dotted n token suffix m e = rw e (ground arith)

  -- The temporary file is no backup.
  abbrev Made : Disk → FilePath → Disk → Type 0
  Made s p u = (begins b'g' p.name ≡ false) × Less d s u

  create_picked-Made :
      (stem : FilePath) (n suffix : Text) (o : Option (FilePath × List Text)) (s t : Disk)
      → stem.name ≡ b'.' ∷ n
      → ((p : FilePath) (left : List Text)
          → o ≡ some (p, left)
          → (token : Text) × (p.name ≡ stem.name ++ token ++ suffix))
      → Less d s t
      → Post (create_picked o) t (Made s) Whatever
  create_picked-Made stem n suffix none s t e i l = tt
  create_picked-Made stem n suffix (some (p, left)) s t e i l =
      let (token, named) = i p left refl in
      let dull = dotted n token suffix p.name (named ∙ ap (λ x. x ++ token ++ suffix) e) in
      (
        dull,
        Less-then d s t _ l (record {
          same_dirs = refl;
          fewer = λ q.
              let e =
                listed-cons d q p (record { contents = []; mode = 0o600; gid = t.group }) t.files
                  dull in
              omega arith;
        }),
      )

  mkstemp-Made :
      (target : FilePath) (suffix : Text) (s t : Disk)
      → Less d s t
      → Post (mkstemp (temp_stem target) suffix) t (Made s) Whatever
  unfolding mkstemp
  mkstemp-Made target suffix s t l = syscall-Less d _ t _ (λ u m.
      elim (Bool-cases (has_dir (dir_gid target.parent u.dirs))) [
        | inl y ↦ rw y (
            create_picked-Made (temp_stem target) (target.name ++ codes ".") suffix
              (pick (temp_stem target) suffix u.tokens u.files) s u refl
              (λ p left e. (pick-fresh (temp_stem target) suffix u.tokens u.files p left e).1)
              (Less-then d s t u l m))
        | inr n ↦ rw n tt
      ])

  fill_temp_file-Less :
      (p target : FilePath) (contents : Bytes) (s t : Disk)
      → begins b'g' p.name ≡ false
      → Less d s t
      → Post (fill_temp_file p target contents) t (λ _ u. Less d s u) Whatever
  unfolding fill_temp_file
  fill_temp_file-Less p target contents s t h l =
      Post-bind (λ _ u. Less d s u) _ Whatever (write p contents) _ t (alter-Less d p _ s t h l)
        (λ _ u m. syscall-Less d _ u _ (λ v n.
          Post-bind (λ _ w. Less d s w) _ Whatever (chmod p 0o640) _ v
            (alter-Less d p _ s v h (Less-then d s u v m n))
            (λ _ w k.
              Post-bind (λ _ x. Less d s x) _ Whatever (stat_dir target.parent) _ w
                (stat_dir-Less d target.parent s w k) (λ gid x j. alter-Less d p _ s x h j))))

  write_temp_file-Made :
      (target : FilePath) (contents : Bytes) (s t : Disk)
      → Less d s t
      → Post (write_temp_file target contents) t (Made s) Whatever
  unfolding write_temp_file
  write_temp_file-Made target contents s t l =
      Post-bind (Made s) _ Whatever (mkstemp (temp_stem target) (codes ".tmp")) _ t
        (mkstemp-Made target (codes ".tmp") s t l)
        (λ p u m.
          Post-bind (λ _ v. Made s p v) _ Whatever
            (on_error (fill_temp_file p target contents) (unlink p)) (λ _. pure p) u
            (on_error-Post _ Whatever Whatever (fill_temp_file p target contents) (unlink p) u
              (Post-then (λ _ v. Less d s v) _ Whatever (fill_temp_file p target contents) u
                (fill_temp_file-Less p target contents s u m.0 m.1) (λ _ v k. (m.0, k)))
              (λ v _. anyhow _ _))
            (λ _ v k. k))

  result-Less :
      {A : Type 0} (r : Result A) (s t : Disk)
      → Less d s t
      → Split (λ (_ : A) u. Less d s u) Whatever r t
  result-Less (ok a) s t l = l
  result-Less (err e) s t l = tt

  manifest_entries-Less :
      (names : List Text) (s t : Disk)
      → Less d s t
      → Post (manifest_entries d names) t (λ _ u. Less d s u) Whatever
  unfolding manifest_entries
  manifest_entries-Less [] s t l = l
  manifest_entries-Less (n ∷ names) s t l =
      Post-bind (λ _ u. Less d s u) _ Whatever (read_file _) _ t (read_file-Less d _ s t l)
        (λ file u m.
          Post-bind (λ _ v. Less d s v) _ Whatever (lift (decoded (ascii file.contents))) _ u
            (result-Less (decoded (ascii file.contents)) s u m)
            (λ sha v k.
              Post-bind (λ _ w. Less d s w) _ Whatever (manifest_entries d names) _ v
                (manifest_entries-Less names s v k) (λ _ w j. j)))

  list_backups-Less : (s : Disk) → Post (list_backups d) s (λ _ u. Less d s u) Whatever
  list_backups-Less s =
      Post-then (Listing d s) _ Whatever (list_backups d) s
        (list_backups-Listing d s Whatever (λ _ _. tt))
        (λ _ u (_, files, dirs). Less-same d s u files dirs)

  pub write_manifest-Less :
      (manifest_json : Manifest → Bytes) (generated_at : Text) (s : Disk)
      → Post (write_manifest manifest_json d generated_at) s (λ _ t. Less d s t) Whatever
  unfolding write_manifest
  write_manifest-Less manifest_json generated_at s =
      Post-bind (λ _ t. Less d s t) _ Whatever (list_backups d) _ s (list_backups-Less s)
        (λ names t l.
          Post-bind (λ _ u. Less d s u) _ Whatever (manifest_entries d names) _ t
            (manifest_entries-Less names s t l)
            (λ entries u m.
              Post-bind (Made s) _ Whatever (write_temp_file _ _) _ u
                (write_temp_file-Made _ _ s u m)
                (λ temp v k.
                  on_error-Post _ Whatever Whatever (replace temp _) (unlink temp) v
                    (replace-Less d temp _ s v (ground arith) k.1) (λ w _. anyhow _ _))))
