-- ===== src/Controller/Recovery/Safe.antt =====
-- What a recovery may do to the configuration.
use nexguard_sentinel.Prelude.{
  ℕ, Bool, true, false, Option, none, some, List, ◌≡◌, refl, ap, ◌∙◌, Bool-cases, inl, inr,
}
use nexguard_sentinel.Python.Exec.{Result, ok, err, pure, is_os_error, is_value_error}
use nexguard_sentinel.Python.Text.{Text}
use nexguard_sentinel.Disk.{Bytes, Disk, FilePath, lookup}
use nexguard_sentinel.Disk.Post.{Split, Post, Post-bind, Post-then}
use nexguard_sentinel.Disk.Calls.{SameFiles}
use nexguard_sentinel.Controller.Backup.{list_backups, last, get_latest_backup, restore_backup}
use nexguard_sentinel.Controller.Backup.Listing.{Listing, list_backups-Listing}
use nexguard_sentinel.Controller.Backup.Restore.{
  Restored, Restoration, done, undone, restore_backup-Restoration,
}
use nexguard_sentinel.Controller.Recovery.{
  Operations, Settings, HealthResult, RecoveryManager, conclude, verify_health, after_wait,
  after_restart, restart, after_restore, after_search, recover, attempt_recovery,
}
use nexguard_sentinel.Controller.Recovery.Guards.{
  is_admitted, attempt_recovery-Refused, attempt_recovery-admitted,
}

list_backups-Same : (d : Text) (s : Disk) → Post (list_backups d) s (λ _. SameFiles s) (SameFiles s)
list_backups-Same d s =
    Post-then (Listing d s) _ (SameFiles s) (list_backups d) s
      (list_backups-Listing d s (SameFiles s) (λ t e. e)) (λ _ t (_, files, _). files)

abbrev newest : Text → List Text → Option FilePath
newest d names = elim (last names) [ none ↦ none | some n ↦ some (record { parent = d; name = n }) ]

files-of_Split :
    {A : Type 0} (s : Disk) (r : Result A) (t : Disk)
    → Split (λ (_ : A). SameFiles s) (SameFiles s) r t
    → SameFiles s t
files-of_Split s (ok a) t h = h
files-of_Split s (err e) t h = h

-- Looking for the latest backup changes no file.
get_latest_backup-Same : (d : Text) (s : Disk) → SameFiles s (get_latest_backup d s).1
unfolding get_latest_backup
get_latest_backup-Same d s = files-of_Split s _ _ (
    Post-bind (λ _. SameFiles s) (λ (_ : Option FilePath). SameFiles s) (SameFiles s)
      (list_backups d) (λ names. pure (newest d names)) s (list_backups-Same d s) (λ names t e. e))

module _ (O : Operations) (sha256 : Bytes → Text) (S : Settings) where
  abbrev M : Type 0
  M = RecoveryManager O sha256 S

  conclude-disk :
      (restored : Bool) (r : Result (Option HealthResult)) (m : M)
      → (conclude O sha256 S restored r m).1.disk ≡ m.disk
  unfolding conclude
  conclude-disk restored (err e) m = refl
  conclude-disk restored (ok none) m = refl
  conclude-disk restored (ok (some h)) m = refl

  after_wait-disk :
      (restored : Bool) (r : Result Bool) (m : M)
      → (after_wait O sha256 S restored r m).1.disk ≡ m.disk
  unfolding after_wait verify_health
  after_wait-disk restored (err e) m = refl
  after_wait-disk restored (ok false) m = refl
  after_wait-disk restored (ok true) m = conclude-disk restored _ _

  after_restart-disk :
      (restored : Bool) (r : Result (Unit {0})) (m : M)
      → (after_restart O sha256 S restored r m).1.disk ≡ m.disk
  unfolding after_restart
  after_restart-disk restored (err e) m = refl
  after_restart-disk restored (ok _) m = after_wait-disk restored _ _

  restart-disk : (restored : Bool) (m : M) → (restart O sha256 S restored m).1.disk ≡ m.disk
  unfolding restart
  restart-disk restored m = after_restart-disk restored _ _

  after_restore-disk :
      (backup : FilePath) (r : Result (Unit {0})) (m : M)
      → (after_restore O sha256 S backup r m).1.disk ≡ m.disk
  unfolding after_restore
  after_restore-disk backup (ok _) m = restart-disk true _
  after_restore-disk backup (err e) m = elim (Bool-cases (is_value_error e)) [
    | inl t ↦ rw t refl
    | inr f ↦ rw f refl
  ]

  abbrev found : Disk → Result (Option FilePath) × Disk
  found s = get_latest_backup S.backup_dir s

  -- The configuration after an attempt that began with the disk `s` and left the disk `t`.
  pub data ConfigAfter (valid : Bool) (s t : Disk) : Type 0 where
    kept : lookup S.config_path t.files ≡ lookup S.config_path s.files → ConfigAfter valid s t
    replaced :
        valid ≡ false
        → (backup : FilePath) → (found s).0 ≡ ok (some backup)
        → Restored sha256 S.config_path (found s).1 backup t
        → ConfigAfter valid s t

  restored-ConfigAfter :
      (s t : Disk) (backup : FilePath) (r : Result (Unit {0}))
      → (found s).0 ≡ ok (some backup)
      → Restoration sha256 S.config_path (found s).1 backup r t
      → ConfigAfter false s t
  restored-ConfigAfter s t backup r f (done _ h) = replaced refl backup f h
  restored-ConfigAfter s t backup r f (undone e _ h) =
      kept (h ∙ ap (lookup S.config_path) (get_latest_backup-Same S.backup_dir s))

  moved : (valid : Bool) (s t u : Disk) → u ≡ t → ConfigAfter valid s t → ConfigAfter valid s u
  moved valid s t u e c = rw e c

  -- Nothing but the search has been done.
  searched : (s t : Disk) → t ≡ (found s).1 → ConfigAfter false s t
  searched s t e = kept (
      ap (λ (u : Disk). lookup S.config_path u.files) e
      ∙ ap (lookup S.config_path) (get_latest_backup-Same S.backup_dir s))

  after_search-ConfigAfter :
      (o : Result (Option FilePath)) (s : Disk) (m : M)
      → (found s).0 ≡ o
      → m.disk ≡ (found s).1
      → ConfigAfter false s (after_search O sha256 S o m).1.disk
  unfolding after_search
  after_search-ConfigAfter (err e) s m f d = elim (Bool-cases (is_os_error e)) [
    | inl t ↦ rw t (searched s m.disk d)
    | inr n ↦ rw n (searched s m.disk d)
  ]
  after_search-ConfigAfter (ok none) s m f d = searched s m.disk d
  after_search-ConfigAfter (ok (some backup)) s m f d =
      moved false s _ _ (after_restore-disk backup _ _) (
        restored-ConfigAfter s _ backup (restore_backup sha256 backup S.config_path m.disk).0 f
          (rw d (restore_backup-Restoration sha256 S.config_path (found s).1 backup)))

  recover-ConfigAfter :
      (valid : Bool) (m : M) → ConfigAfter valid m.disk (recover O sha256 S valid m).1.disk
  unfolding recover
  recover-ConfigAfter true m =
      kept (ap (λ (u : Disk). lookup S.config_path u.files) (restart-disk false m))
  recover-ConfigAfter false m = after_search-ConfigAfter _ m.disk _ refl refl

  -- An attempt leaves the configuration as it was, or, if the configuration was not valid, replaces
  -- it by the latest backup, whose checksum file held its digest: with the whole contents of the
  -- backup, whichever calls of the operating system or of Docker fail.
  pub attempt_recovery-ConfigAfter :
      (valid : Bool) (now : ℕ) (m : M)
      → ConfigAfter valid m.disk (attempt_recovery O sha256 S valid now m).1.disk
  attempt_recovery-ConfigAfter valid now m = elim (Bool-cases (is_admitted O sha256 S now m)) [
    | inl t ↦ rw (attempt_recovery-admitted O sha256 S valid now m t) (recover-ConfigAfter valid _)
    | inr f ↦ kept (
        ap (λ (u : Disk). lookup S.config_path u.files)
          (attempt_recovery-Refused O sha256 S valid now m f).disk_kept)
  ]
