-- ===== src/Controller/Runtime/Tests.antt =====
-- Runs of the runtime, and its guarantees at concrete inputs.
mod Backups
use nexguard_sentinel.Prelude.{
  Bool, ℕ, ◌+◌, ◌≤◌, List, arith, true, false, none, some, [], ◌∷◌, ◌++◌, ◌==◌, nats_eq, nat_eq,
  string_eq, if◌then◌else◌, pos, ◌≡◌, refl, ◌⊎◌, inl,
}
use nexguard_sentinel.Python.Exec.{Exception, ok, err}
use nexguard_sentinel.Python.Text.{Text, codes, strip, lstrip, rstrip, is_space, lower}
use nexguard_sentinel.Python.Number.{int, int_signed, magnitude, digits, digit, skip_prefix}
use nexguard_sentinel.Controller.Incident
use nexguard_sentinel.Controller.Incident.{record_failure}
use nexguard_sentinel.Disk.{
  Bytes, FilePath, File, Disk, lookup, remove, dir_gid, has_dir, syscall, read_file, stat_dir,
  unlink, replace, make_dir, pick, mkstemp, alter,
}
use nexguard_sentinel.Disk.Calls.{SameFiles}
use nexguard_sentinel.Controller.Backup.{
  checksum_path_for, is_backup_name, has_prefix, has_suffix, drop_text, read_pair, matches,
  verify_backup, target_attributes, fill_and_replace, restore_backup, get_latest_backup, text_le,
}
use nexguard_sentinel.Controller.Backup.Restore.{Restoration, restore_backup-Restoration}
use nexguard_sentinel.Controller.Backup.Complete.{at, IsComplete, get_latest_backup-greatest}
use nexguard_sentinel.Controller.Backup.Create.{Manifest, create_backup}
use nexguard_sentinel.Controller.Backup.Allowed.{Allowed, create_backup-Allowed}
use nexguard_sentinel.Controller.Config.{Libraries}
use nexguard_sentinel.Controller.Models.{HealthResult}
use nexguard_sentinel.Controller.Recovery.{Operations, Settings, ready}
use nexguard_sentinel.Controller.Recovery.{Arguments, settings_of, attempt_recovery, new_manager}
use nexguard_sentinel.Controller.Recovery.Safe.{ConfigAfter, attempt_recovery-ConfigAfter}
use nexguard_sentinel.Controller.Runtime.{Clock, Runtime, handle_health_result}
use nexguard_sentinel.Controller.Recovery.Windows.{count_within}
use nexguard_sentinel.Controller.Recovery.Starts.{Spaced}
use nexguard_sentinel.Controller.Runtime.Rounds.{
  Rounds, after_rounds, round_starts, IsForward, round_starts-bounded,
}
use nexguard_sentinel.Controller.Incident.History.{Heard, Tracks}
use nexguard_sentinel.Controller.Runtime.Tracked.{heard_in, after_rounds-Tracks}
use nexguard_sentinel.Controller.Runtime.Quiet.{Quiet, handle_health_result-Quiet}
use nexguard_sentinel.Controller.Runtime.Tests.Backups.{
  digest, config, disk, libraries, manifest_json,
}

abbrev checked : Bool → HealthResult
checked is_ok = record {
  is_ok = is_ok;
  reason = "http";
  checked_at = "t";
  status_code = none;
  duration = 1;
}

abbrev gateway : Operations
gateway = record {
  World = ℕ;
  restart_container = λ name w. (ok tt, w + 1);
  wait_for_running = λ name timeout w. (ok true, w + 2);
  health_check = λ w. (ok (checked (false)), w + 1);
  loop_time = λ w. (w + 1, w + 1);
  loop_sleep = λ d w. w + d;
}

abbrev arguments : Arguments
arguments = record {
  config_path = config;
  backup_dir = codes "/backups";
  container_name = codes "gateway";
  cooldown_seconds = pos 5;
  max_recoveries_per_window = pos 2;
  recovery_window_seconds = pos 100;
  restart_wait_seconds = pos 30;
}

abbrev settings : Settings
settings = settings_of arguments

abbrev runtime : Runtime gateway digest settings libraries manifest_json 60 (pos 10)
runtime = record {
  incidents = record {
    failure_threshold = 3;
    consecutive_failures = 1;
    current_incident = none;
    failures_gauge = 1;
    incidents_total = 0;
    log = [];
  };
  recovery = record {
    status = ready;
    attempts = [];
    last_attempt = none;
    disk = disk;
    world = 0;
    log = [];
  };
  last_backup = none;
  gateway_up = 1;
  config_integrity = 1;
  last_backup_timestamp = 0;
  recoveries_total = 0;
  messages = [];
  log = [];
}

abbrev clock : Clock
clock = record {
  monotonic = 50;
  recovery_monotonic = 51;
  wall = 1000;
  timestamp = codes "5";
  generated_at = codes "t5";
  opened_utc = "t5";
  closed_utc = "t6";
  new_id = "id5";
}

no_incident :
    (elim (record_failure "http" "t5" "id5" runtime.incidents).1.current_incident [
      | none ↦ false
      | some i ↦ true
    ])
    ≡ false
unfolding record_failure nat_eq
no_incident = refl

handle_health_result-Quiet_example :
    Quiet gateway digest settings libraries manifest_json 60
      (pos 10)
      runtime
      (handle_health_result gateway digest settings libraries manifest_json 60
        (pos 10)
        clock
        (checked (false))
        runtime).1
handle_health_result-Quiet_example =
    handle_health_result-Quiet gateway digest settings libraries manifest_json 60 (pos 10) clock
      (checked (false)) runtime refl (inl no_incident)

attempt_recovery-ConfigAfter_example :
    ConfigAfter gateway digest settings false disk
      (attempt_recovery gateway digest settings false 51 runtime.recovery).1.disk
attempt_recovery-ConfigAfter_example =
    attempt_recovery-ConfigAfter gateway digest settings false 51 runtime.recovery

-- Three failures in a row: the second opens the incident and starts a recovery, and the third comes
-- within the cooldown.
abbrev at_time : ℕ → Clock
at_time n = record clock { recovery_monotonic = n }

abbrev rounds : Rounds gateway digest settings libraries manifest_json 60 (pos 10)
rounds =
    (at_time 53, checked false) ∷ (at_time 51, checked false) ∷ (at_time 41, checked false) ∷ []

rounds-IsForward : IsForward gateway digest settings libraries manifest_json 60 (pos 10) rounds
unfolding IsForward
rounds-IsForward = (omega arith, (omega arith, (omega arith, tt)))

abbrev starts_of_rounds : List ℕ
starts_of_rounds =
    round_starts gateway digest settings libraries manifest_json 60 (pos 10) runtime rounds

created : new_manager gateway digest arguments disk 0 ≡ ok runtime.recovery
unfolding new_manager
created = refl

round_starts-bounded_example :
    Spaced gateway digest settings starts_of_rounds × (count_within 100 51 starts_of_rounds ≤ 2)
round_starts-bounded_example =
    round_starts-bounded gateway digest arguments libraries manifest_json 60 (pos 10) disk 0 runtime
      rounds 51 created rounds-IsForward

abbrev fresh : Runtime gateway digest settings libraries manifest_json 60 (pos 10)
fresh = record runtime {
  incidents = record {
    failure_threshold = 2;
    consecutive_failures = 0;
    current_incident = none;
    failures_gauge = 0;
    incidents_total = 0;
    log = [];
  };
}

fresh-new_manager : Incident.new_manager (pos 2) ≡ ok fresh.incidents
unfolding Incident.new_manager
fresh-new_manager = refl

-- Three failures are heard, and no success: the recovery is not followed by a healthy check.
abbrev heard : List Heard
heard = heard_in gateway digest settings libraries manifest_json 60 (pos 10) fresh rounds

after_rounds-Tracks_example :
    Tracks 2
      (heard_in gateway digest settings libraries manifest_json 60 (pos 10) fresh rounds)
      (after_rounds gateway digest settings libraries manifest_json 60
        (pos 10)
        fresh
        rounds).incidents
after_rounds-Tracks_example =
    after_rounds-Tracks gateway digest settings libraries manifest_json 60 (pos 10) 2 fresh rounds
      fresh-new_manager
