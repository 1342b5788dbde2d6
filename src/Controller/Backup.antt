-- ===== src/Controller/Backup.antt =====
-- backup.py and `restore_backup` of recovery.py, over the disk. SHA-256 is a parameter.
pub mod Create
pub mod Attributes
pub mod Verified
pub mod Restore
pub mod Allowed
pub mod Sorting
pub mod Listing
pub mod Quiet
pub mod Complete
pub mod Digest
pub mod Fresh
pub mod Leaves
pub mod Written
pub mod Retention
pub mod Survival
pub mod Manager
mod Tests
use nexguard_sentinel.Prelude.{
  ℕ, Bool, true, false, not, ◌&&◌, ◌||◌, Option, none, some, List, [], ◌∷◌, ◌++◌, ltb, ◌==◌, nat_eq,
  nats_eq, if◌then◌else◌, length,
}
use nexguard_sentinel.Python.Exec.{
  Exception, Result, ok, err, value_error, unicode_error, file_not_found_error, Exec, pure, lift,
  gets, refuse_if, ◌>>=◌, ◌>>◌, handle, on_error, is_read_error, is_os_error,
}
use nexguard_sentinel.Python.Text.{Text, codes, strip, lower}
use nexguard_sentinel.Python.Number.{int}
use nexguard_sentinel.Disk.{
  Bytes, FilePath, File, Disk, lookup, dir_gid, has_dir, syscall, read_file, stat_dir, unlink,
  replace, make_dir, mkstemp, write, chmod, chown, fsync, is_free,
}

-- `checksum_path_for`
unfoldable pub checksum_path_for : FilePath → FilePath
checksum_path_for p = record p { name = p.name ++ codes ".sha256" }

-- The prefix that `mkstemp` is given: the name of the target between dots.
abbrev pub temp_stem : FilePath → FilePath
temp_stem p = record p { name = b'.' ∷ (p.name ++ codes ".") }

-- contents.decode("ascii")
abbrev pub ascii : Bytes → Option Text
ascii [] = some []
ascii (b ∷ bytes) = elim (ascii bytes) [
  | none ↦ none
  | some t ↦ if ltb b 128 then some (b ∷ t) else none
]

abbrev pub decoded : Option Text → Result Text
decoded none = err unicode_error
decoded (some t) = ok t

-- The lexicographic order of names.
unfoldable pub text_le : Text → Text → Bool
text_le [] t = true
text_le (a ∷ s) [] = false
text_le (a ∷ s) (b ∷ t) =
    let rest = text_le s t in if ltb a b then true else if ltb b a then false else rest

unfoldable pub insert_name : Text → List Text → List Text
insert_name n [] = n ∷ []
insert_name n (m ∷ names) =
    let later = m ∷ insert_name n names in if text_le n m then n ∷ m ∷ names else later

-- `sorted` of the names
unfoldable pub sort_names : List Text → List Text
sort_names [] = []
sort_names (n ∷ names) = insert_name n (sort_names names)

unfoldable pub has_prefix : Text → Text → Bool
has_prefix [] s = true
has_prefix (p ∷ prefix) [] = false
has_prefix (p ∷ prefix) (c ∷ s) = p == c && has_prefix prefix s

-- Whether some end of the text is `suffix`.
unfoldable pub has_suffix : Text → Text → Bool
has_suffix suffix [] = suffix == []
has_suffix suffix (c ∷ s) = (suffix == c ∷ s) || has_suffix suffix s

unfoldable pub drop_text : Text → Text → Text
drop_text [] s = s
drop_text (p ∷ prefix) [] = []
drop_text (p ∷ prefix) (c ∷ s) = drop_text prefix s

-- The pattern `gateway-*.yaml`
unfoldable pub is_backup_name : Text → Bool
is_backup_name n =
    has_prefix (codes "gateway-") n && has_suffix (codes ".yaml") (drop_text (codes "gateway-") n)

unfoldable pub names_in : Text → List (FilePath × File) → List Text
names_in d [] = []
names_in d ((p, _) ∷ files) =
    let rest = names_in d files in
    if p.parent == d && is_backup_name p.name then p.name ∷ rest else rest

-- `checksum_path_for(path).is_file()` for each name
unfoldable pub complete : Text → List (FilePath × File) → List Text → List Text
complete d files [] = []
complete d files (n ∷ names) =
    let rest = complete d files names in
    if is_free (lookup (checksum_path_for (record { parent = d; name = n })) files)
    then rest
    else n ∷ rest

-- The names of the complete backups of a directory, sorted.
unfoldable pub backup_names : Text → Disk → List Text
backup_names d s =
    if has_dir (dir_gid d s.dirs) then sort_names (complete d s.files (names_in d s.files)) else []

-- `backup_dir.glob(…)`, sorted: pathlib takes a directory that may not be read for an empty one.
unfoldable pub scan_backups : Text → Exec Disk (List Text)
scan_backups d = handle (do syscall; gets (backup_names d)) is_os_error (λ _. pure [])

-- `list_backups`. Its first call stands for every error that it raises: of `exists`, of `is_file`,
-- and of the scan where it is not one of permission.
unfoldable pub list_backups : Text → Exec Disk (List Text)
list_backups d = do
  syscall
  λ s. if has_dir (dir_gid d s.dirs) then scan_backups d s else (ok [], s)

abbrev pub last : List Text → Option Text
last [] = none
last (n ∷ names) = elim (last names) [ none ↦ some n | some m ↦ some m ]

-- `get_latest_backup`
unfoldable pub get_latest_backup : Text → Exec Disk (Option FilePath)
get_latest_backup d = do
  names ← list_backups d
  pure (elim (last names) [ none ↦ none | some n ↦ some (record { parent = d; name = n }) ])

-- `except FileNotFoundError`
abbrev pub is_missing : Exception → Bool
is_missing file_not_found_error = true
is_missing _ = false

-- hashlib.sha256(contents).hexdigest()
module _ (sha256 : Bytes → Text) where
  -- The two reads of `verify_backup`, in order.
  unfoldable pub read_pair : FilePath → Exec Disk (Option (Text × Bytes))
  read_pair p = do
    checksum ← read_file (checksum_path_for p)
    expected ← lift (decoded (ascii checksum.contents))
    file ← read_file p
    pure (some (strip expected, file.contents))

  abbrev pub is_digest : Text → Bool
  is_digest t = elim (int 16 t) [ none ↦ false | some _ ↦ length t == 64 ]

  -- The test of the checksum and the contents that were read.
  unfoldable pub matches : Option (Text × Bytes) → Bool
  matches none = false
  matches (some (expected, contents)) = is_digest expected && sha256 contents == lower expected

  unfoldable pub verify_backup : FilePath → Exec Disk Bool
  verify_backup p = do
    read ← handle (read_pair p) is_read_error (λ _. pure none)
    pure (matches read)

  -- The mode and the group that the restored file gets.
  unfoldable pub target_attributes : FilePath → Exec Disk (ℕ × ℕ)
  target_attributes config =
      handle (do file ← read_file config; pure (file.mode, file.gid)) (λ e. is_missing e)
        (λ _. do gid ← stat_dir config.parent; pure (0o664, gid))

  -- The writes to the temporary file, and the replacement.
  unfoldable pub fill_and_replace : FilePath → FilePath → Bytes → ℕ → ℕ → Exec Disk (Unit {0})
  fill_and_replace temp target contents mode gid = do
    write temp contents
    fsync
    chmod temp mode
    chown temp gid
    replace temp target

  -- `restore_backup`
  unfoldable pub restore_backup : FilePath → FilePath → Exec Disk (Unit {0})
  restore_backup backup config = do
    valid ← verify_backup backup
    refuse_if (not valid) (value_error "backup_checksum_invalid")
    file ← read_file backup
    make_dir config.parent
    attributes ← target_attributes config
    temp ← mkstemp (temp_stem config) (codes ".tmp")
    on_error (fill_and_replace temp config file.contents attributes.0 attributes.1) (unlink temp)
