-- ===== src/Controller/Backup/Manager/Created.antt =====
-- A backup that the manager has created is one that it verifies.
use nexguard_sentinel.Prelude.{
  Bool, true, not, none, some, [], ◌∷◌, ◌++◌, nat_eq, nats_eq, ◌≡◌, refl, sym, ap, ◌∙◌, arith,
}
use nexguard_sentinel.Python.Exec.{
  Result, ok, err, library_error, handle, is_read_error, raise, lift, ◌>>◌, pure,
}
use nexguard_sentinel.Python.Text.{Text, codes}
use nexguard_sentinel.Disk.{Bytes, FilePath, File, Disk, lookup, make_dir}
use nexguard_sentinel.Disk.Post.{Split, Post-bind}
use nexguard_sentinel.Controller.Config.{Libraries, check_config_text}
use nexguard_sentinel.Controller.Backup.{
  checksum_path_for, is_backup_name, has_prefix, has_suffix, drop_text,
}
use nexguard_sentinel.Controller.Backup.Complete.{at}
use nexguard_sentinel.Controller.Backup.Create.{
  Manifest, read_source, write_backup_pair, prune_backups, write_manifest, kept_count, is_below_one,
}
use nexguard_sentinel.Controller.Backup.Create as Create
use nexguard_sentinel.Controller.Backup.Digest.{IsHexdigest}
use nexguard_sentinel.Controller.Backup.Fresh.{Whatever}
use nexguard_sentinel.Controller.Backup.Leaves.{Leaves, after_any, after_refuse}
use nexguard_sentinel.Controller.Backup.Written.{Pair, write_backup_pair-Pair, undotted}
use nexguard_sentinel.Controller.Backup.Written.Reread.{calm, Pair-verified}
use nexguard_sentinel.Controller.Backup.Survival.{
  Stands, whole, gone, prune_backups-Stands, write_manifest-Stands,
}
use nexguard_sentinel.Controller.Backup.Manager.{BackupManager, create_backup, verify_backup}

suffix-append : (s : Text) → has_suffix (codes ".yaml") (s ++ codes ".yaml") ≡ true
unfolding has_suffix
suffix-append [] = ground arith
suffix-append (c ∷ s) = let h = suffix-append s in ground arith

abbrev name_for : Text → Text
name_for timestamp = codes "gateway-" ++ timestamp ++ codes ".yaml"

-- Whatever the time is, the new backup has the name of one.
name_for-named : (timestamp : Text) → is_backup_name (name_for timestamp) ≡ true
unfolding is_backup_name has_prefix drop_text
name_for-named timestamp = let h = suffix-append timestamp in ground arith

module _ (manifest_json : Manifest → Bytes) (sha256 : Bytes → Text) (L : Libraries)
    (m : BackupManager) (timestamp generated_at : Text) where
  abbrev backup : FilePath
  backup = at m.backup_dir (name_for timestamp)

  abbrev digest_line : Bytes → Bytes
  digest_line contents = sha256 contents ++ codes "\n"

  -- The new backup is returned, and it stands with some contents.
  abbrev New : FilePath → Disk → Type 0
  New p t =
      (p ≡ backup)
      × ((contents : Bytes) × Stands m.backup_dir (name_for timestamp) contents
            (digest_line contents) (name_for-named timestamp) t)

  after_pair :
      (contents : Bytes)
      → Leaves
          (write_backup_pair backup contents (sha256 contents ++ codes "\n")
            >> (prune_backups m.backup_dir (kept_count m.retention_count)
                >> (write_manifest manifest_json m.backup_dir generated_at >> pure backup)))
          New
  unfolding checksum_path_for
  after_pair contents =
      let named = name_for-named timestamp in
      let (plain, plain_sum) = undotted (name_for timestamp) named in
      let d = m.backup_dir in
      let n = name_for timestamp in
      let sum = digest_line contents in
      record {
        leaves = λ s.
            Post-bind (λ _ t. Pair backup contents sum t) New Whatever
              (write_backup_pair backup contents sum) _ s
              (write_backup_pair-Pair backup contents sum plain plain_sum s)
              (λ _ t k.
                Post-bind (λ _ u. Stands d n contents sum named u) New Whatever
                  (prune_backups d (kept_count m.retention_count)) _ t
                  (prune_backups-Stands d n contents sum named (kept_count m.retention_count) t
                    (whole k))
                  (λ _ u l.
                    Post-bind (λ _ v. Stands d n contents sum named v) New Whatever
                      (write_manifest manifest_json d generated_at) _ u
                      (write_manifest-Stands d n contents sum named manifest_json generated_at u l)
                      (λ _ v x. (refl, (contents, x)))));
      }

  create_backup-Leaves :
      (healthy : Bool)
      → Leaves (create_backup manifest_json sha256 L m healthy timestamp generated_at) New
  unfolding create_backup Create.create_backup
  create_backup-Leaves healthy = after_refuse (not healthy) _ (λ _.
      after_refuse (is_below_one m.retention_count) _ (λ h.
        after_any
          (handle (read_source manifest_json sha256 L m.config_path) is_read_error
            (λ _. raise (library_error "BackupValidationError")))
          (λ source. after_any (lift (check_config_text L source.1)) (λ valid.
            after_refuse (not valid.0) _
              (λ _. after_any (make_dir m.backup_dir) (λ _. after_pair source.0))))))

  returned :
      (r : Result FilePath) (t : Disk) (p : FilePath) → Split New Whatever r t → r ≡ ok p → New p t
  returned (ok q) t p h e = let x : q ≡ p = ground arith in rw (← x) h
  returned (err x) t p h e = absurd (ground arith)

  New-verified :
      (D : IsHexdigest sha256) (p : FilePath) (t : Disk) (f : File)
      → New p t
      → lookup p t.files ≡ some f
      → (verify_backup sha256 p (calm sha256 D backup [] t)).0 ≡ ok true
  unfolding verify_backup
  New-verified D p t f (same, (contents, whole k)) there =
      rw same (Pair-verified sha256 D backup contents t k)
  New-verified D p t f (same, (contents, gone k)) there =
      let x : none ≡ some f = sym k ∙ ap (λ q. lookup q t.files) (sym same) ∙ there in
      absurd (ground arith)

  -- If SHA-256 gives 64 lower-case hexadecimal digits, and `create_backup` returns a path at which
  -- there is still a file (the pruning may have removed it, if the clock went back), then
  -- `verify_backup` accepts it, as long as no call of the operating system fails in it.
  pub create_backup-verify_backup :
      (D : IsHexdigest sha256) (healthy : Bool) (s : Disk) (p : FilePath) (f : File)
      → (create_backup manifest_json sha256 L m healthy timestamp generated_at s).0 ≡ ok p
      → lookup p (create_backup manifest_json sha256 L m healthy timestamp generated_at s).1.files
        ≡ some f
      → (verify_backup sha256 p
          (record (create_backup manifest_json sha256 L m healthy timestamp generated_at s).1 {
            faults = [];
          })).0
        ≡ ok true
  create_backup-verify_backup D healthy s p f made there =
      New-verified D p _ f (returned _ _ p ((create_backup-Leaves healthy).leaves s) made) there
