-- ===== src/Controller/Backup/Manager.antt =====
-- `BackupManager` of backup.py. Its clock is an argument, as the two texts of its time.
pub mod Created
use nexguard_sentinel.Prelude.{Bool, Option, List, ℤ}
use nexguard_sentinel.Python.Exec.{Exec}
use nexguard_sentinel.Python.Text.{Text}
use nexguard_sentinel.Disk.{Bytes, FilePath, Disk}
use nexguard_sentinel.Controller.Config.{Libraries}
use nexguard_sentinel.Controller.Backup
use nexguard_sentinel.Controller.Backup.Create
use nexguard_sentinel.Controller.Backup.Create.{Manifest}

pub record BackupManager : Type 0 where
  pub config_path : FilePath
  pub backup_dir : Text
  pub retention_count : ℤ

module _ (manifest_json : Manifest → Bytes) (sha256 : Bytes → Text) (L : Libraries) where
  unfoldable pub create_backup : BackupManager → Bool → Text → Text → Exec Disk FilePath
  create_backup m gateway_healthy timestamp generated_at =
      Create.create_backup manifest_json sha256 L m.config_path m.backup_dir gateway_healthy
        timestamp generated_at m.retention_count

unfoldable pub list_backups : BackupManager → Exec Disk (List Text)
list_backups m = Backup.list_backups m.backup_dir

unfoldable pub get_latest_backup : BackupManager → Exec Disk (Option FilePath)
get_latest_backup m = Backup.get_latest_backup m.backup_dir

unfoldable pub verify_backup : (Bytes → Text) → FilePath → Exec Disk Bool
verify_backup sha256 backup_path = Backup.verify_backup sha256 backup_path
