-- ===== src/Controller/Runtime.antt =====
-- `ControllerRuntime.handle_health_result` of main.py, which joins the check of the configuration, the
-- incidents, the backups and the recovery. What the clocks say is an argument; the metrics, the
-- messages for the notifier and the log, newest first, are fields of the runtime.
pub mod Quiet
pub mod Touches
pub mod Rounds
pub mod World
pub mod Tracked
mod Tests
use nexguard_sentinel.Prelude.{
  ℕ, ◌+◌, String, Bool, true, false, not, ◌&&◌, ◌||◌, Option, none, some, List, [], ◌∷◌, leb, ◌==◌,
  string_eq, if◌then◌else◌, ℤ,
}
use nexguard_sentinel.Python.Exec.{Exception, Result, ok, err, library_error, is_os_error}
use nexguard_sentinel.Python.Text.{Text}
use nexguard_sentinel.Controller.Log.{LogEvent, text, path_text, error_text}
use nexguard_sentinel.Controller.Incident
use nexguard_sentinel.Controller.Incident.{IncidentManager, record_failure, record_success, is_some}
use nexguard_sentinel.Disk.{Bytes, FilePath, Disk}
use nexguard_sentinel.Controller.Backup.{get_latest_backup}
use nexguard_sentinel.Controller.Backup.Create.{Manifest, create_backup}
use nexguard_sentinel.Controller.Config.{Libraries, check_config}
use nexguard_sentinel.Controller.Recovery.{
  Operations, Settings, HealthResult, RecoveryManager, RecoveryResult, is_manual, attempt_recovery,
  path_string,
}

-- What the clocks and the id factory return while one health result is handled.
pub record Clock : Type 0 where
  pub monotonic : ℕ
  -- the reading of the recovery manager
  pub recovery_monotonic : ℕ
  pub wall : ℕ
  -- the time in the name of a backup, and in the manifest
  pub timestamp : Text
  pub generated_at : Text
  -- the times at which an incident is opened and closed, and its id
  pub opened_utc : String
  pub closed_utc : String
  pub new_id : String

-- `except (BackupError, OSError)`
abbrev pub is_backup_failure : Exception → Bool
is_backup_failure (library_error name) =
    name == "BackupStateError" || name == "BackupValidationError"
is_backup_failure e = is_os_error e

abbrev pub gauge : Bool → ℕ
gauge b = if b then 1 else 0

unfoldable pub is_due : ℕ → ℕ → Option FilePath → Option ℕ → Bool
is_due interval now none last = true
is_due interval now (some _) none = true
is_due interval now (some _) (some t) = leb (t + interval) now

module _ (O : Operations) (sha256 : Bytes → Text) (S : Settings) (L : Libraries)
    (manifest_json : Manifest → Bytes) (backup_interval : ℕ) (backup_retention : ℤ) where
  pub record Runtime : Type 0 where
    pub incidents : IncidentManager
    -- with the disk and the world
    pub recovery : RecoveryManager O sha256 S
    pub last_backup : Option ℕ
    pub gateway_up : ℕ
    pub config_integrity : ℕ
    pub last_backup_timestamp : ℕ
    pub recoveries_total : ℕ
    -- each message with what follows its colon
    pub messages : List (String × Option String)
    pub log : List LogEvent

  -- `none` where the fuel of the recovery ran out.
  abbrev pub Handled : Type 0
  Handled = Result (Option (Unit {0})) × Runtime

  abbrev finished : Runtime → Handled
  finished r = (ok (some tt), r)

  abbrev pub with_disk : Disk → Runtime → Runtime
  with_disk d r = record r { recovery = record r.recovery { disk = d } }

  abbrev pub notify : String → Option String → Runtime → Runtime
  notify message detail r = record r { messages = (message, detail) ∷ r.messages }

  abbrev add_log : LogEvent → Runtime → Runtime
  add_log e r = record r { log = e ∷ r.log }

  unfoldable pub after_backup : Clock → Result FilePath → Runtime → Handled
  after_backup t (err e) r =
      if is_backup_failure e
      then finished (
          add_log
            (record {
              event_type = "backup_failed";
              level = "ERROR";
              message = "Config backup failed";
              context = ("reason", error_text e) ∷ [];
            })
            r)
      else (err e, r)
  after_backup t (ok p) r = finished (
      add_log
        (record {
          event_type = "backup_created";
          level = "INFO";
          message = "Healthy gateway config backed up";
          context = ("backup", path_text (path_string p)) ∷ [];
        })
        (record r { last_backup = some t.monotonic; last_backup_timestamp = t.wall }))

  unfoldable pub back_up : Clock → Runtime → Handled
  back_up t r =
      let (made, d) =
        create_backup manifest_json sha256 L S.config_path S.backup_dir true t.timestamp
          t.generated_at backup_retention r.recovery.disk in
      after_backup t made (with_disk d r)

  unfoldable pub after_latest : Clock → Bool → Result (Option FilePath) → Runtime → Handled
  after_latest t config_valid (err e) r = (err e, r)
  after_latest t config_valid (ok latest) r =
      if config_valid && is_due backup_interval t.monotonic latest r.last_backup
      then back_up t r
      else finished r

  -- The health result is ok.
  unfoldable pub on_healthy : Clock → Bool → Runtime → Handled
  on_healthy t config_valid r =
      let (latest, d) = get_latest_backup S.backup_dir r.recovery.disk in
      after_latest t config_valid latest
        (with_disk d (record r { incidents = (record_success t.closed_utc r.incidents).1 }))

  unfoldable pub after_recovery :
      Clock → String → Result (Option RecoveryResult) → Runtime → Handled
  after_recovery t config_reason (err e) r = (err e, r)
  after_recovery t config_reason (ok none) r = (ok none, r)
  after_recovery t config_reason (ok (some result)) r =
      if result.success
      then finished (
          notify "NexGuard recovery completed successfully" none (record r {
            recoveries_total = r.recoveries_total + 1;
            gateway_up = 1;
            config_integrity = 1;
            incidents = (record_success t.closed_utc r.incidents).1;
          }))
      else finished (
          add_log
            (record {
              event_type = "recovery_failed";
              level = "ERROR";
              message = "Recovery attempt did not restore health";
              context = ("reason", text result.reason) ∷ ("config_reason", text config_reason) ∷ [];
            })
            (notify "NexGuard recovery failed" (some result.reason) r))

  unfoldable pub respond : Clock → Bool → String → Runtime → Handled
  respond t config_valid config_reason r =
      if not (is_some r.incidents.current_incident) || is_manual r.recovery.status
      then finished r
      else let (result, m) =
          attempt_recovery O sha256 S config_valid t.recovery_monotonic r.recovery in
        after_recovery t config_reason result (record r { recovery = m })

  abbrev announce : Option Incident.Incident → Runtime → Runtime
  announce none r = r
  announce (some i) r = notify "NexGuard incident opened" (some i.reason) r

  -- The health result is not ok.
  unfoldable pub on_unhealthy : Clock → String → Bool → String → Runtime → Handled
  on_unhealthy t reason config_valid config_reason r =
      let (opened, m) = record_failure reason t.opened_utc t.new_id r.incidents in
      respond t config_valid config_reason (announce opened (record r { incidents = m }))

  unfoldable pub after_check : Clock → HealthResult → Result (Bool × String) → Runtime → Handled
  after_check t health (err e) r = (err e, r)
  after_check t health (ok (config_valid, config_reason)) r =
      let r' : Runtime = record r { config_integrity = gauge config_valid } in
      if health.is_ok
      then on_healthy t config_valid r'
      else on_unhealthy t health.reason config_valid config_reason r'

  unfoldable pub handle_health_result : Clock → HealthResult → Runtime → Handled
  handle_health_result t health r =
      let (checked, d) = check_config L S.config_path r.recovery.disk in
      after_check t health checked (with_disk d (record r { gateway_up = gauge health.is_ok }))
