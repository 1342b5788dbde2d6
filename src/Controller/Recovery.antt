-- ===== src/Controller/Recovery.antt =====
-- `RecoveryManager` of recovery.py. The Docker operations, the health check and the two functions of
-- the event loop are parameters, over an unknown world that their calls change. The disk is that of
-- Disk, with any failures. Times are whole ticks of a microsecond.
pub mod Kept
pub mod Windows
pub mod Guards
pub mod World
pub mod Starts
pub mod Manual
pub mod Answers
pub mod Success
pub mod Safe
mod Tests
pub use nexguard_sentinel.Controller.Models.{HealthResult}
use nexguard_sentinel.Prelude.{
  ℕ, zero, suc, ◌+◌, ◌-◌, ◌≤◌, ◌<◌, min, String, Bool, true, false, not, ◌&&◌, ◌||◌, Option, none,
  some, List, [], ◌∷◌, ◌++◌, ltb, leb, length, if◌then◌else◌, ◌≡◌, ℤ, is_negative, pos_part,
}
use nexguard_sentinel.Python.Exec.{
  Exception, Result, ok, err, value_error, Exec, is_os_error, is_value_error,
}
use nexguard_sentinel.Python.Text.{Text, codes}
use nexguard_sentinel.Controller.Log.{
  LogEvent, Value, text, path_text, error_text, error_name, number, flag,
}
use nexguard_sentinel.Disk.{Bytes, FilePath, Disk}
use nexguard_sentinel.Controller.Backup.{get_latest_backup, restore_backup}

-- `DockerOperations`, `HealthCheck`, and the time and sleep of the event loop.
pub record Operations : Type 1 where
  pub World : Type 0
  pub restart_container : Text → Exec World (Unit {0})
  pub wait_for_running : Text → ℕ → Exec World Bool
  pub health_check : Exec World HealthResult
  pub loop_time : World → ℕ × World
  pub loop_sleep : ℕ → World → World

pub data RecoveryStatus : Type 0 where
  ready manual_intervention_required : RecoveryStatus

abbrev pub is_manual : RecoveryStatus → Bool
is_manual ready = false
is_manual manual_intervention_required = true

pub record RecoveryResult : Type 0 where
  pub success : Bool
  pub reason : String
  pub restored_config : Bool

-- The arguments of the constructor that are settings.
pub record Arguments : Type 0 where
  pub config_path : FilePath
  pub backup_dir : Text
  pub container_name : Text
  pub cooldown_seconds : ℤ
  pub max_recoveries_per_window : ℤ
  pub recovery_window_seconds : ℤ
  pub restart_wait_seconds : ℤ

-- The settings of a manager, which are no less than zero since the constructor has tested them.
pub record Settings : Type 0 where
  pub config_path : FilePath
  pub backup_dir : Text
  pub container_name : Text
  pub cooldown_seconds : ℕ
  pub max_recoveries_per_window : ℕ
  pub recovery_window_seconds : ℕ
  pub restart_wait_seconds : ℕ

abbrev pub settings_of : Arguments → Settings
settings_of a = record {
  config_path = a.config_path;
  backup_dir = a.backup_dir;
  container_name = a.container_name;
  cooldown_seconds = pos_part a.cooldown_seconds;
  max_recoveries_per_window = pos_part a.max_recoveries_per_window;
  recovery_window_seconds = pos_part a.recovery_window_seconds;
  restart_wait_seconds = pos_part a.restart_wait_seconds;
}

-- The loop that removes the attempts that have left the window; the oldest is first.
unfoldable pub expire : ℕ → ℕ → List ℕ → List ℕ
expire window now [] = []
expire window now (a ∷ attempts) =
    let rest = expire window now attempts in if leb (a + window) now then rest else a ∷ attempts

unfoldable pub is_cooling : ℕ → ℕ → Option ℕ → Bool
is_cooling cooldown now none = false
is_cooling cooldown now (some a) = ltb now (a + cooldown)

abbrev pub path_string : FilePath → Text
path_string p = p.parent ++ codes "/" ++ p.name

module _ (O : Operations) (sha256 : Bytes → Text) (S : Settings) where
  open O use {World, restart_container, wait_for_running, health_check, loop_time, loop_sleep}

  -- The fields that the manager changes, with the disk, the world and its log, newest first.
  pub record RecoveryManager : Type 0 where
    pub status : RecoveryStatus
    pub attempts : List ℕ
    pub last_attempt : Option ℕ
    pub disk : Disk
    pub world : World
    pub log : List LogEvent

  -- `_log`
  abbrev pub add_log :
      String → String → String → List (String × Value) → RecoveryManager → RecoveryManager
  add_log event_type level message context m = record m {
    log =
        (record { event_type = event_type; level = level; message = message; context = context })
        ∷ m.log;
  }

  abbrev pub log_failed : String → List (String × Value) → RecoveryManager → RecoveryManager
  log_failed = add_log "recovery_failed" "ERROR"

  -- The loop of health checks; `none` means that the fuel ran out.
  unfoldable pub await_health : ℕ → ℕ → Exec World (Option HealthResult)
  await_health zero deadline w = (ok none, w)
  await_health (suc fuel) deadline w =
      let (checked, w') = health_check w in
      let (now, w'') = loop_time w' in
      elim checked [
        | err e ↦ (err e, w')
        | ok h ↦ elim h.is_ok [
          | true ↦ (ok (some h), w')
          | false ↦ elim (leb deadline now) [
            | true ↦ (ok (some h), w'')
            | false ↦ await_health fuel deadline (loop_sleep (min 500000 (deadline - now)) w'')
          ]
        ]
      ]

  -- What the last health check means; without one the fuel ran out.
  unfoldable pub conclude :
      Bool
      → Result (Option HealthResult)
      → RecoveryManager
      → Result (Option RecoveryResult) × RecoveryManager
  conclude restored (err e) m = (err e, m)
  conclude restored (ok none) m = (ok none, m)
  conclude restored (ok (some h)) m = (
    ok (
        some (
          if h.is_ok
          then record { success = true; reason = "ok"; restored_config = restored }
          else record {
            success = false;
            reason = "post_recovery_health_failed";
            restored_config = restored;
          })),
    add_log "recovery_verified" (if h.is_ok then "INFO" else "ERROR")
        "Post-recovery health check completed"
        (("ok", flag h.is_ok) ∷ ("reason", text h.reason) ∷ []) m,
  )

  -- The fuel is one more than the ticks to the deadline, since each round sleeps for a tick or more.
  unfoldable pub verify_health :
      Bool → RecoveryManager → Result (Option RecoveryResult) × RecoveryManager
  verify_health restored m =
      let (now, w) = loop_time m.world in
      let (checked, w') =
        await_health (S.restart_wait_seconds + 1) (now + S.restart_wait_seconds) w in
      conclude restored checked (record m { world = w' })

  abbrev pub give_up :
      String → Bool → RecoveryManager → Result (Option RecoveryResult) × RecoveryManager
  give_up reason restored m =
      (ok (some (record { success = false; reason = reason; restored_config = restored })), m)

  unfoldable pub after_wait :
      Bool → Result Bool → RecoveryManager → Result (Option RecoveryResult) × RecoveryManager
  after_wait restored (err e) m = give_up "docker_operation_failed" restored (
      log_failed "Container state polling failed"
        (("error_type", error_name e) ∷ ("reason", error_text e) ∷ []) m)
  after_wait restored (ok false) m =
      give_up "container_not_running" restored
        (log_failed "Container did not reach running state" [] m)
  after_wait restored (ok true) m = verify_health restored m

  unfoldable pub after_restart :
      Bool → Result (Unit {0}) → RecoveryManager → Result (Option RecoveryResult) × RecoveryManager
  after_restart restored (err e) m = give_up "docker_operation_failed" restored (
      log_failed "Container restart failed"
        (("error_type", error_name e) ∷ ("reason", error_text e) ∷ []) m)
  after_restart restored (ok _) m =
      let (running, w) = wait_for_running S.container_name S.restart_wait_seconds m.world in
      after_wait restored running (
        add_log "container_restarted" "INFO" "Managed container restart requested"
          (("container", path_text S.container_name) ∷ []) (record m { world = w }))

  -- From the restart to the end.
  unfoldable pub restart : Bool → RecoveryManager → Result (Option RecoveryResult) × RecoveryManager
  restart restored m =
      let (restarted, w) = restart_container S.container_name m.world in
      after_restart restored restarted (record m { world = w })

  unfoldable pub after_restore :
      FilePath
      → Result (Unit {0})
      → RecoveryManager
      → Result (Option RecoveryResult) × RecoveryManager
  after_restore backup (err e) m =
      if is_value_error e
      then give_up "restore_failed" false
          (log_failed "Config restoration failed" (("reason", error_text e) ∷ []) m)
      else (err e, m)
  after_restore backup (ok _) m = restart true (
      add_log "config_restored" "INFO" "Gateway config restored atomically" [] (
        add_log "backup_verified" "INFO" "Backup checksum verified"
          (("backup", path_text (path_string backup)) ∷ []) m))

  unfoldable pub after_search :
      Result (Option FilePath) → RecoveryManager → Result (Option RecoveryResult) × RecoveryManager
  after_search (err e) m =
      if is_os_error e
      then give_up "restore_failed" false
          (log_failed "Backup directory could not be read" (("reason", error_text e) ∷ []) m)
      else (err e, m)
  after_search (ok none) m =
      give_up "backup_not_found" false (log_failed "No valid backup is available" [] m)
  after_search (ok (some backup)) m =
      let (restored, d) = restore_backup sha256 backup S.config_path m.disk in
      after_restore backup restored (record m { disk = d })

  -- The attempt that no guard has refused.
  unfoldable pub recover : Bool → RecoveryManager → Result (Option RecoveryResult) × RecoveryManager
  recover true m = restart false m
  recover false m =
      let (found, d) = get_latest_backup S.backup_dir m.disk in
      after_search found (record m { disk = d })

  -- What the attempt writes before it does anything.
  abbrev pub begin : ℕ → RecoveryManager → RecoveryManager
  begin now m =
      add_log "recovery_started" "INFO" "Recovery attempt started" []
        (record m { attempts = m.attempts ++ now ∷ []; last_attempt = some now })

  abbrev pub limit_exceeded : RecoveryManager → RecoveryManager
  limit_exceeded m =
      add_log "manual_intervention_required" "ERROR" "Automatic recovery rate limit exceeded"
        (("attempts", number (length m.attempts)) ∷ [])
        (record m { status = manual_intervention_required })

  -- The guards, in order, once the old attempts have left the window.
  unfoldable pub guarded :
      Bool → ℕ → RecoveryManager → Result (Option RecoveryResult) × RecoveryManager
  guarded config_valid now m =
      if is_manual m.status
      then give_up "manual_intervention_required" false m
      else if leb S.max_recoveries_per_window (length m.attempts)
      then give_up "manual_intervention_required" false (limit_exceeded m)
      else if is_cooling S.cooldown_seconds now m.last_attempt
      then give_up "cooldown_active" false
          (add_log "recovery_deferred" "WARNING" "Recovery cooldown is active" [] m)
      else recover config_valid (begin now m)

  -- `now` is what the monotonic clock says.
  unfoldable pub attempt_recovery :
      Bool → ℕ → RecoveryManager → Result (Option RecoveryResult) × RecoveryManager
  attempt_recovery config_valid now m =
      guarded config_valid now
        (record m { attempts = expire S.recovery_window_seconds now m.attempts })

-- The constructor and `__post_init__`. A number below one is one that is negative or zero.
unfoldable pub new_manager :
    (O : Operations) (sha256 : Bytes → Text) (a : Arguments)
    → Disk
    → O.World
    → Result (RecoveryManager O sha256 (settings_of a))
new_manager O sha256 a disk world =
    if is_negative a.cooldown_seconds
    then err (value_error "cooldown_seconds must be non-negative")
    else if ltb (pos_part a.max_recoveries_per_window) 1
    then err (value_error "max_recoveries_per_window must be at least 1")
    else if leb (pos_part a.recovery_window_seconds) 0 || is_negative a.restart_wait_seconds
    then err (value_error "recovery and restart windows must be valid")
    else ok (record {
      status = ready;
      attempts = [];
      last_attempt = none;
      disk = disk;
      world = world;
      log = [];
    })
