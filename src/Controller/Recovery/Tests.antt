-- ===== src/Controller/Recovery/Tests.antt =====
-- Runs of the recovery, and its guarantees at concrete inputs.
use nexguard_sentinel.Prelude.{
  ℕ, ◌+◌, ◌≤◌, Bool, true, false, none, some, [], ◌∷◌, leb, nats_eq, nat_eq, length, ◌≡◌, refl,
  arith,
}
use nexguard_sentinel.Python.Exec.{ok}
use nexguard_sentinel.Python.Text.{Text, codes}
use nexguard_sentinel.Disk.{Bytes, Disk}
use nexguard_sentinel.Controller.Models.{HealthResult}
use nexguard_sentinel.Controller.Recovery.{
  Operations, Settings, RecoveryManager, ready, expire, is_cooling, await_health, conclude,
  verify_health, after_wait, after_restart, restart, recover, guarded, attempt_recovery,
}
use nexguard_sentinel.Controller.Recovery.Guards.{is_admitted}
use nexguard_sentinel.Controller.Recovery.Manual.{after, Untouched, attempt_recovery-after_limit}
use nexguard_sentinel.Controller.Recovery.Answers.{IsTimely, is_answer, attempt_recovery-answers}
use nexguard_sentinel.Controller.Recovery.Success.{Recovered, attempt_recovery-success}

abbrev checked : Bool → HealthResult
checked is_ok = record {
  is_ok = is_ok;
  reason = "http";
  checked_at = "t";
  status_code = none;
  duration = 1;
}

-- The world is the clock of the loop. The gateway is healthy once it has reached `up`.
abbrev gateway : ℕ → Operations
gateway up = record {
  World = ℕ;
  restart_container = λ name w. (ok tt, w + 1);
  wait_for_running = λ name timeout w. (ok true, w + 2);
  health_check = λ w. (ok (checked (leb up w)), w + 1);
  loop_time = λ w. (w + 1, w + 1);
  loop_sleep = λ d w. w + d;
}

abbrev gateway_timely : (up : ℕ) → IsTimely (gateway up)
gateway_timely up = record {
  time = λ w. w;
  reads = λ w. refl;
  forward = λ w. omega arith;
  sleeps = λ d w. omega arith;
  check_forward = λ w. omega arith;
}

abbrev digest : Bytes → Text
digest contents = codes "0"

abbrev settings : Settings
settings = record {
  config_path = record { parent = codes "/config"; name = codes "gateway.yaml" };
  backup_dir = codes "/backups";
  container_name = codes "gateway";
  cooldown_seconds = 5;
  max_recoveries_per_window = 2;
  recovery_window_seconds = 100;
  restart_wait_seconds = 30;
}

abbrev disk : Disk
disk = record { files = []; dirs = []; group = 0; faults = []; tokens = [] }

abbrev manager : (up : ℕ) → RecoveryManager (gateway up) digest settings
manager up = record {
  status = ready;
  attempts = [];
  last_attempt = none;
  disk = disk;
  world = 0;
  log = [];
}

attempt_recovery-answers_example :
    is_answer (attempt_recovery (gateway 1000) digest settings true 10 (manager 1000)).0 ≡ true
attempt_recovery-answers_example =
    attempt_recovery-answers (gateway 1000) (gateway_timely 1000) digest settings true 10
      (manager 1000)

abbrev full : RecoveryManager (gateway 9) digest settings
full = record (manager 9) { attempts = 10 ∷ 20 ∷ []; last_attempt = some 20 }

full_window : 2 ≤ length (expire 100 30 full.attempts)
unfolding expire
full_window = omega arith

attempt_recovery-after_limit_example :
    let m1 = (attempt_recovery (gateway 9) digest settings true 30 full).1 in
    let r =
      attempt_recovery
        (gateway 9)
        digest
        settings
        true
        900
        (after (gateway 9) digest settings m1 ((false, 500) ∷ [])) in
    (r.0
      ≡ ok (
          some (record {
            success = false;
            reason = "manual_intervention_required";
            restored_config = false;
          })))
    × Untouched (gateway 9) digest settings m1 r.1
attempt_recovery-after_limit_example =
    attempt_recovery-after_limit (gateway 9) digest settings true 30 full ((false, 500) ∷ []) true
      900 full_window

recovers :
    (attempt_recovery (gateway 9) digest settings true 10 (manager 9)).0
    ≡ ok (some (record { success = true; reason = "ok"; restored_config = false }))
unfolding attempt_recovery guarded recover restart after_restart after_wait verify_health conclude
    await_health expire is_cooling
recovers = refl

attempt_recovery-success_example :
    (is_admitted (gateway 9) digest settings 10 (manager 9) ≡ true)
    × Recovered
        (gateway 9)
        digest
        settings
        true
        disk
        (attempt_recovery (gateway 9) digest settings true 10 (manager 9)).0
        (attempt_recovery (gateway 9) digest settings true 10 (manager 9)).1
attempt_recovery-success_example =
    attempt_recovery-success (gateway 9) digest settings true 10 (manager 9) (rw recovers refl)
