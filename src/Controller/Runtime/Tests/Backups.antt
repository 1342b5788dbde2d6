-- ===== src/Controller/Runtime/Tests/Backups.antt =====
-- Backups, their restoration and the check at concrete inputs.
use nexguard_sentinel.Prelude.{
  true, some, [], ◌∷◌, ◌++◌, ◌==◌, nats_eq, nat_eq, string_eq, if◌then◌else◌, pos, ◌≡◌, refl, ◌⊎◌,
}
use nexguard_sentinel.Python.Exec.{Exception, ok, err}
use nexguard_sentinel.Python.Text.{Text, codes, strip, lstrip, rstrip, is_space, lower}
use nexguard_sentinel.Python.Number.{int, int_signed, magnitude, digits, digit, skip_prefix}
use nexguard_sentinel.Disk.{
  Bytes, FilePath, File, Disk, lookup, remove, dir_gid, has_dir, syscall, read_file, stat_dir,
  unlink, replace, make_dir, pick, mkstemp, alter,
}
use nexguard_sentinel.Disk.Calls.{SameFiles}
use nexguard_sentinel.Controller.Backup.{
  checksum_path_for, is_backup_name, has_prefix, has_suffix, drop_text, read_pair, matches,
  verify_backup, target_attributes, fill_and_replace, restore_backup, get_latest_backup, text_le,
}
use nexguard_sentinel.Controller.Backup.Restore.{Restoration, restore_backup-Restoration}
use nexguard_sentinel.Controller.Backup.Complete.{at, IsComplete, get_latest_backup-greatest}
use nexguard_sentinel.Controller.Backup.Create.{Manifest, create_backup}
use nexguard_sentinel.Controller.Backup.Allowed.{Allowed, create_backup-Allowed}
use nexguard_sentinel.Controller.Config.{Libraries}

abbrev sixteen : Text
sixteen = codes "0123456789abcdef"

abbrev pub digest : Bytes → Text
digest contents = sixteen ++ sixteen ++ sixteen ++ sixteen

abbrev pub config : FilePath
config = record { parent = codes "/config"; name = codes "gateway.yaml" }

abbrev backup : Text
backup = codes "gateway-2.yaml"

abbrev plain : Bytes → File
plain contents = record { contents = contents; mode = 0o640; gid = 7 }

-- Two backups, the second with its checksum file.
abbrev pub disk : Disk
disk = record {
  files =
      (config, record { contents = codes "broken"; mode = 0o600; gid = 5 })
      ∷ (at (codes "/backups") (codes "gateway-3.yaml"), plain (codes "newer"))
      ∷ (at (codes "/backups") backup, plain (codes "good"))
      ∷ (at (codes "/backups") (backup ++ codes ".sha256"), plain (digest [] ++ codes "\n"))
      ∷ [];
  dirs = (codes "/config", 5) ∷ (codes "/backups", 7) ∷ [];
  group = 7;
  faults = [];
  tokens = codes "abc" ∷ codes "def" ∷ codes "ghi" ∷ [];
}

restores :
    lookup config (restore_backup digest (at (codes "/backups") backup) config disk).1.files
    ≡ some (record { contents = codes "good"; mode = 0o600; gid = 5 })
unfolding restore_backup verify_backup read_pair matches target_attributes fill_and_replace
    checksum_path_for lookup remove dir_gid syscall read_file stat_dir unlink replace make_dir pick
    mkstemp alter strip lstrip rstrip is_space lower int int_signed magnitude digits digit
    skip_prefix nats_eq
restores = refl

restore_backup-Restoration_example :
    Restoration digest config disk
      (at (codes "/backups") backup)
      (restore_backup digest (at (codes "/backups") backup) config disk).0
      (restore_backup digest (at (codes "/backups") backup) config disk).1
restore_backup-Restoration_example =
    restore_backup-Restoration digest config disk (at (codes "/backups") backup)

backup-IsComplete : IsComplete (codes "/backups") disk backup
unfolding is_backup_name has_prefix has_suffix drop_text lookup checksum_path_for nats_eq nat_eq
backup-IsComplete = record { is_named = refl; file_there = refl; checksum_there = refl }

backups_there : has_dir (dir_gid (codes "/backups") disk.dirs) ≡ true
unfolding dir_gid nats_eq
backups_there = refl

get_latest_backup-greatest_example :
    (m : Text) × ((get_latest_backup (codes "/backups") disk).0
      ≡ ok (some (at (codes "/backups") m)))
    × IsComplete (codes "/backups") disk m
    × (text_le backup m ≡ true)
get_latest_backup-greatest_example =
    get_latest_backup-greatest (codes "/backups") backup disk refl backups_there backup-IsComplete

-- A text is its own value, and only "good" meets the schema.
abbrev pub libraries : Libraries
libraries = record {
  Value = Text;
  safe_load = λ t. ok t;
  is_dict = λ v. true;
  model_validate = λ s v. if v == codes "good" then [] else "missing" ∷ [];
  utf8 = λ b. some b;
}

abbrev pub manifest_json : Manifest → Bytes
manifest_json m = codes "{}"

create_backup-Allowed_example :
    (((e : Exception) × ((create_backup manifest_json digest libraries config
            (codes "/backups")
            true
            (codes "4")
            (codes "t")
            (pos 2)
            disk).0
          ≡ err e))
      × SameFiles disk
          (create_backup manifest_json digest libraries config
            (codes "/backups")
            true
            (codes "4")
            (codes "t")
            (pos 2)
            disk).1)
    ⊎ Allowed manifest_json digest libraries config
        (codes "/backups")
        true
        (codes "4")
        (codes "t")
        (pos 2)
        disk
create_backup-Allowed_example =
    create_backup-Allowed manifest_json digest libraries config (codes "/backups") true (codes "4")
      (codes "t") (pos 2) disk
