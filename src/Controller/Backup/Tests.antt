-- ===== src/Controller/Backup/Tests.antt =====
-- A backup that is written and verified.
use nexguard_sentinel.Prelude.{
  ◌≤◌, length, List, pos, some, Bool, true, false, ◌&&◌, [], ◌∷◌, ◌++◌, nat_eq, nats_eq, ◌≡◌, refl,
  arith,
}
use nexguard_sentinel.Python.Exec.{Result, ok}
use nexguard_sentinel.Python.Text.{Text, codes, strip}
use nexguard_sentinel.Python.Number.Hex.{is_hex, IsHex}
use nexguard_sentinel.Disk.{
  Bytes, FilePath, File, Disk, lookup, remove, dir_gid, syscall, read_file, make_dir, stat_dir,
  unlink, replace, pick, mkstemp, alter,
}
use nexguard_sentinel.Controller.Backup.{
  checksum_path_for, scan_backups, list_backups, sort_names, insert_name, text_le, complete,
  names_in, is_backup_name, has_prefix, has_suffix, drop_text, backup_names,
}
use nexguard_sentinel.Controller.Backup.Create.{
  write_backup_pair, write_temp_file, fill_temp_file, replace_pair, Manifest, create_backup,
  prune_backups, all_but_last, remove_backups, manifest_entries, write_manifest,
}
use nexguard_sentinel.Controller.Config.{Libraries, check_config_text, parse_yaml, validate_schema}
use nexguard_sentinel.Controller.Backup.Digest.{IsHexdigest}
use nexguard_sentinel.Controller.Backup.Quiet.{IsQuiet, is_failing}
use nexguard_sentinel.Controller.Backup.Retention.{create_backup-bounded}
use nexguard_sentinel.Controller.Backup.Manager as Manager
use nexguard_sentinel.Controller.Backup.Manager.{BackupManager}
use nexguard_sentinel.Controller.Backup.Manager.Created.{create_backup-verify_backup}

abbrev sixteen : Text
sixteen = codes "0123456789abcdef"

abbrev digest : Bytes → Text
digest contents = sixteen ++ sixteen ++ sixteen ++ sixteen

abbrev plain : File
plain = record { contents = []; mode = 0o640; gid = 7 }

abbrev disk : Disk
disk = record {
  files = [];
  dirs = (codes "/backups", 7) ∷ [];
  group = 7;
  faults = [];
  tokens = codes "abc" ∷ codes "def" ∷ [];
}

abbrev all_hex : Text → Bool
all_hex [] = true
all_hex (c ∷ s) = is_hex c && all_hex s

IsHex-of_all_hex : (s : Text) → all_hex s ≡ true → IsHex s
unfolding IsHex
IsHex-of_all_hex [] h = tt
IsHex-of_all_hex (c ∷ s) h = (ground arith, IsHex-of_all_hex s (ground arith))

digest-IsHexdigest : IsHexdigest digest
digest-IsHexdigest = record {
  hex = λ contents. IsHex-of_all_hex (digest []) refl;
  size = λ contents. refl;
}

abbrev new_backup : FilePath
new_backup = record { parent = codes "/backups"; name = codes "gateway-5.yaml" }

abbrev backups : Text
backups = codes "/backups"

abbrev pair_at : Text → List (FilePath × File)
pair_at name =
    (record { parent = backups; name = name }, plain)
    ∷ (record { parent = backups; name = name ++ codes ".sha256" }, plain)
    ∷ []

abbrev config : FilePath
config = record { parent = codes "/config"; name = codes "gateway.yaml" }

-- A text is its own value, and every value meets the schema.
abbrev libraries : Libraries
libraries = record {
  Value = Text;
  safe_load = λ t. ok t;
  is_dict = λ v. true;
  model_validate = λ s v. [];
  utf8 = λ b. some b;
}

abbrev manifest_json : Manifest → Bytes
manifest_json m = codes "{}"

-- A backup beside an older one, of which one may stay.
abbrev old_disk : Disk
old_disk = record disk {
  files =
      (config, record { contents = codes "good"; mode = 0o640; gid = 7 })
      ∷ pair_at (codes "gateway-1.yaml");
  tokens = codes "a" ∷ codes "b" ∷ codes "c" ∷ [];
}

abbrev created : Result FilePath × Disk
created =
    create_backup manifest_json digest libraries config backups true (codes "5") (codes "t5")
      (pos 1) old_disk

created_new : created.0 ≡ ok new_backup
unfolding create_backup read_file syscall lookup nats_eq nat_eq check_config_text parse_yaml
    validate_schema strip make_dir dir_gid write_backup_pair write_temp_file mkstemp pick
    fill_temp_file alter stat_dir checksum_path_for remove replace_pair replace prune_backups
    list_backups scan_backups backup_names sort_names insert_name text_le complete names_in
    is_backup_name has_prefix has_suffix drop_text remove_backups all_but_last unlink write_manifest
    manifest_entries
created_new = refl

old_disk-IsQuiet : IsQuiet old_disk
unfolding is_failing
old_disk-IsQuiet = refl

-- A directory that may not be read is taken for an empty one.
unreadable : (list_backups backups (record old_disk { faults = false ∷ true ∷ [] })).0 ≡ ok []
unfolding list_backups scan_backups syscall dir_gid nats_eq nat_eq
unreadable = refl

create_backup-bounded_example : length (backup_names backups created.1) ≤ 1
create_backup-bounded_example =
    create_backup-bounded backups manifest_json digest libraries config (codes "5") (codes "t5")
      (pos 1) true old_disk new_backup old_disk-IsQuiet created_new

abbrev manager : BackupManager
manager = record { config_path = config; backup_dir = backups; retention_count = pos 1 }

abbrev by_manager : Result FilePath × Disk
by_manager =
    Manager.create_backup manifest_json digest libraries manager true (codes "5") (codes "t5")
      old_disk

by_manager_new :
    (by_manager.0 ≡ ok new_backup)
    × (lookup new_backup by_manager.1.files
        ≡ some (record { contents = codes "good"; mode = 0o640; gid = 7 }))
unfolding Manager.create_backup create_backup read_file syscall lookup nats_eq nat_eq
    check_config_text parse_yaml validate_schema strip make_dir dir_gid write_backup_pair
    write_temp_file mkstemp pick fill_temp_file alter stat_dir checksum_path_for remove replace_pair
    replace prune_backups list_backups scan_backups backup_names sort_names insert_name text_le
    complete names_in is_backup_name has_prefix has_suffix drop_text remove_backups all_but_last
    unlink write_manifest manifest_entries
by_manager_new = (refl, refl)

create_backup-verify_backup_example :
    (Manager.verify_backup digest new_backup (record by_manager.1 { faults = [] })).0 ≡ ok true
create_backup-verify_backup_example =
    create_backup-verify_backup manifest_json digest libraries manager (codes "5") (codes "t5")
      digest-IsHexdigest true old_disk new_backup _ by_manager_new.0 by_manager_new.1
