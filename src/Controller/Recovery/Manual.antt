-- ===== src/Controller/Recovery/Manual.antt =====
-- The state that asks for manual intervention.
use nexguard_sentinel.Prelude.{
  ℕ, ◌≤◌, Bool, false, Option, some, List, [], ◌∷◌, length, ◌≡◌, refl, ap, ◌∙◌, arith,
}
use nexguard_sentinel.Python.Exec.{Result, ok}
use nexguard_sentinel.Disk.{Bytes}
use nexguard_sentinel.Controller.Recovery.{
  Operations, Settings, RecoveryManager, RecoveryResult, manual_intervention_required, expire,
  give_up, guarded, attempt_recovery,
}

module _ (O : Operations) (sha256 : Bytes → List ℕ) (S : Settings) where
  abbrev M : Type 0
  M = RecoveryManager O sha256 S

  -- Attempts, newest first: whether the configuration was valid, and the time.
  abbrev pub History : Type 0
  History = List (Bool × ℕ)

  -- The manager after a history.
  unfoldable pub after : M → History → M
  after m [] = m
  after m ((valid, now) ∷ earlier) = (attempt_recovery O sha256 S valid now (after m earlier)).1

  -- Nothing was done: the disk, the world and the log are the same, and the state is still manual.
  pub record Untouched (m m' : M) : Type 0 where
    pub still_manual : m'.status ≡ manual_intervention_required
    pub same_disk : m'.disk ≡ m.disk
    pub same_world : m'.world ≡ m.world
    pub same_log : m'.log ≡ m.log

  attempt-manual :
      (valid : Bool) (now : ℕ) (m : M)
      → m.status ≡ manual_intervention_required
      → attempt_recovery O sha256 S valid now m
        ≡ give_up O sha256 S "manual_intervention_required" false
            (record m { attempts = expire S.recovery_window_seconds now m.attempts })
  unfolding attempt_recovery guarded
  attempt-manual valid now m h = ground arith

  after-Untouched :
      (m : M) (history : History)
      → m.status ≡ manual_intervention_required
      → Untouched m (after m history)
  unfolding after
  after-Untouched m [] h = record {
    still_manual = h;
    same_disk = refl;
    same_world = refl;
    same_log = refl;
  }
  after-Untouched m ((valid, now) ∷ earlier) h =
      let u = after-Untouched m earlier h in
      let e =
        ap (λ (r : Result (Option RecoveryResult) × M). r.1)
          (attempt-manual valid now (after m earlier) u.still_manual) in
      record {
        still_manual = ap (λ (n : M). n.status) e ∙ u.still_manual;
        same_disk = ap (λ (n : M). n.disk) e ∙ u.same_disk;
        same_world = ap (λ (n : M). n.world) e ∙ u.same_world;
        same_log = ap (λ (n : M). n.log) e ∙ u.same_log;
      }

  reaches-manual :
      (valid : Bool) (now : ℕ) (m : M)
      → S.max_recoveries_per_window ≤ length (expire S.recovery_window_seconds now m.attempts)
      → (attempt_recovery O sha256 S valid now m).1.status ≡ manual_intervention_required
  unfolding attempt_recovery guarded
  reaches-manual valid now m h = ground arith

  -- After an attempt that finds as many starts in the window as the maximum, every later attempt,
  -- at whatever time and after whatever attempts, returns `manual_intervention_required`, and none
  -- of them has touched the disk, called an operation or logged anything.
  pub attempt_recovery-after_limit :
      (valid : Bool) (now : ℕ) (m : M) (later : History) (valid' : Bool) (now' : ℕ)
      → S.max_recoveries_per_window ≤ length (expire S.recovery_window_seconds now m.attempts)
      → let m1 = (attempt_recovery O sha256 S valid now m).1 in
        let r = attempt_recovery O sha256 S valid' now' (after m1 later) in
        (r.0
          ≡ ok (
              some (record {
                success = false;
                reason = "manual_intervention_required";
                restored_config = false;
              })))
        × Untouched m1 r.1
  unfolding after
  attempt_recovery-after_limit valid now m later valid' now' h =
      let m1 = (attempt_recovery O sha256 S valid now m).1 in
      let manual = reaches-manual valid now m h in
      (
        ap (λ (r : Result (Option RecoveryResult) × M). r.0)
            (attempt-manual valid' now' _ (after-Untouched m1 later manual).still_manual),
        after-Untouched m1 ((valid', now') ∷ later) manual,
      )
