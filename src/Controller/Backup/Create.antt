-- ===== src/Controller/Backup/Create.antt =====
-- `create_backup` of backup.py. The libraries of the configuration's check and the JSON text of
-- the manifest are parameters beside SHA-256. The time is an argument, as the text that
-- stands in the name of the backup and as that in the manifest.
use nexguard_sentinel.Prelude.{
  ℕ, zero, suc, Bool, true, not, Option, List, [], ◌∷◌, ◌++◌, ltb, leb, if◌then◌else◌, length, ℤ,
  pos, negsuc,
}
use nexguard_sentinel.Python.Exec.{
  ok, value_error, library_error, Exec, pure, raise, lift, refuse_if, ◌>>=◌, ◌>>◌, handle, on_error,
  is_read_error,
}
use nexguard_sentinel.Python.Text.{Text, codes, strip}
use nexguard_sentinel.Disk.{
  Bytes, FilePath, Disk, syscall, lookup, read_file, stat_dir, unlink, replace, make_dir, mkstemp,
  write, chmod, chown, fsync, is_free,
}
use nexguard_sentinel.Controller.Config.{Libraries, check_config_text}
use nexguard_sentinel.Controller.Backup.{
  checksum_path_for, temp_stem, ascii, decoded, list_backups, last,
}

-- The writes to a temporary file, and its mode and group.
unfoldable pub fill_temp_file : FilePath → FilePath → Bytes → Exec Disk (Unit {0})
fill_temp_file temp target contents = do
  write temp contents
  fsync
  chmod temp 0o640
  gid ← stat_dir target.parent
  chown temp gid

-- `_write_temp_file`
unfoldable pub write_temp_file : FilePath → Bytes → Exec Disk FilePath
write_temp_file target contents = do
  temp ← mkstemp (temp_stem target) (codes ".tmp")
  on_error (fill_temp_file temp target contents) (unlink temp)
  pure temp

-- if not backup_path.exists(): checksum_path.unlink(missing_ok=True)
abbrev pub drop_orphan : FilePath → Exec Disk (Unit {0})
drop_orphan backup = do
  syscall
  λ s. if is_free (lookup backup s.files) then unlink (checksum_path_for backup) s else (ok tt, s)

-- The two replacements of `_write_backup_pair`, and what is removed if one of them fails.
unfoldable pub replace_pair : FilePath → FilePath → FilePath → Exec Disk (Unit {0})
replace_pair backup backup_temp checksum_temp =
    on_error (do replace checksum_temp (checksum_path_for backup); replace backup_temp backup)
      (do unlink backup_temp; unlink checksum_temp; drop_orphan backup)

-- `_write_backup_pair`
unfoldable pub write_backup_pair : FilePath → Bytes → Bytes → Exec Disk (Unit {0})
write_backup_pair backup contents checksum = do
  backup_temp ← write_temp_file backup contents
  checksum_temp ← write_temp_file (checksum_path_for backup) checksum
  replace_pair backup backup_temp checksum_temp

-- names[:-count], for a count above zero
unfoldable pub all_but_last : ℕ → List Text → List Text
all_but_last count [] = []
all_but_last count (n ∷ names) =
    let rest = all_but_last count names in if leb count (length names) then n ∷ rest else []

-- names[:-count], which is empty for zero
abbrev pub removable : ℕ → List Text → List Text
removable zero names = []
removable (suc k) names = all_but_last (suc k) names

unfoldable pub remove_backups : Text → List Text → Exec Disk (Unit {0})
remove_backups d [] = pure tt
remove_backups d (n ∷ names) = do
  unlink (checksum_path_for (record { parent = d; name = n }))
  unlink (record { parent = d; name = n })
  remove_backups d names

-- `_prune_backups`
unfoldable pub prune_backups : Text → ℕ → Exec Disk (Unit {0})
prune_backups d count = do names ← list_backups d; remove_backups d (removable count names)

pub record Manifest : Type 0 where
  pub generated_at : Text
  pub latest : Option Text
  -- the names of the backups with their digests
  pub backups : List (Text × Text)

-- The entries of the manifest, from the checksum files.
unfoldable pub manifest_entries : Text → List Text → Exec Disk (List (Text × Text))
manifest_entries d [] = pure []
manifest_entries d (n ∷ names) = do
  file ← read_file (checksum_path_for (record { parent = d; name = n }))
  sha ← lift (decoded (ascii file.contents))
  rest ← manifest_entries d names
  pure ((n, strip sha) ∷ rest)

abbrev pub is_below_one : ℤ → Bool
is_below_one (negsuc n) = true
is_below_one (pos n) = ltb n 1

abbrev pub kept_count : ℤ → ℕ
kept_count (negsuc n) = n
kept_count (pos n) = n

module _ (manifest_json : Manifest → Bytes) where
  -- `_write_manifest`
  unfoldable pub write_manifest : Text → Text → Exec Disk (Unit {0})
  write_manifest d generated_at = do
    names ← list_backups d
    entries ← manifest_entries d names
    let manifest : FilePath = record { parent = d; name = codes "backup-manifest.json" }
    temp ← write_temp_file manifest (
        manifest_json
          (record { generated_at = generated_at; latest = last names; backups = entries }))
    on_error (replace temp manifest) (unlink temp)

  module _ (sha256 : Bytes → Text) (L : Libraries) where
    abbrev pub read_source : FilePath → Exec Disk (Bytes × Text)
    read_source config = do
      file ← read_file config
      text ← lift (decoded (L.utf8 file.contents))
      pure (file.contents, text)

    -- `create_backup`. A hexadecimal digest is ASCII, so it is its own encoding.
    unfoldable pub create_backup : FilePath → Text → Bool → Text → Text → ℤ → Exec Disk FilePath
    create_backup config d gateway_healthy timestamp generated_at retention = do
      refuse_if (not gateway_healthy) (library_error "BackupStateError")
      refuse_if (is_below_one retention) (value_error "retention_count must be at least 1")
      source ←
          handle (read_source config) is_read_error
            (λ _. raise (library_error "BackupValidationError"))
      valid ← lift (check_config_text L source.1)
      refuse_if (not valid.0) (library_error "BackupValidationError")
      make_dir d
      let backup : FilePath = record {
        parent = d;
        name = codes "gateway-" ++ timestamp ++ codes ".yaml";
      }
      write_backup_pair backup source.0 (sha256 source.0 ++ codes "\n")
      prune_backups d (kept_count retention)
      write_manifest d generated_at
      pure backup
