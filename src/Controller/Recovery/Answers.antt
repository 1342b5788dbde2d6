-- ===== src/Controller/Recovery/Answers.antt =====
-- A recovery always comes to an end.
use nexguard_sentinel.Prelude.{
  ℕ, zero, suc, ◌+◌, ◌-◌, ◌≤◌, ◌<◌, min, Bool, true, false, Option, none, some, List, leb, ◌≡◌,
  refl, arith, Bool-cases, inl, inr,
}
use nexguard_sentinel.Python.Exec.{Result, ok, err, is_os_error, is_value_error}
use nexguard_sentinel.Disk.{Bytes, FilePath}
use nexguard_sentinel.Controller.Recovery.{
  Operations, Settings, HealthResult, RecoveryManager, await_health, conclude, verify_health,
  after_wait, after_restart, restart, after_restore, after_search, recover, attempt_recovery,
}
use nexguard_sentinel.Controller.Recovery.Guards.{
  is_admitted, attempt_recovery-Refused, attempt_recovery-admitted,
}

-- What asyncio documents of the loop's clock: it never goes back, and a sleep lasts as long as it is
-- asked to.
pub record IsTimely (O : Operations) : Type 0 where
  pub time : O.World → ℕ
  pub reads : (w : O.World) → (O.loop_time w).0 ≡ time (O.loop_time w).1
  pub forward : (w : O.World) → time w ≤ time (O.loop_time w).1
  pub sleeps : (d : ℕ) (w : O.World) → time w + d ≤ time (O.loop_sleep d w)
  pub check_forward : (w : O.World) → time w ≤ time (O.health_check w).1

-- The method returned or raised: its fuel did not run out.
abbrev pub is_answer : {A : Type 0} → Result (Option A) → Bool
is_answer (ok none) = false
is_answer _ = true

module _ (O : Operations) (T : IsTimely O) (sha256 : Bytes → List ℕ) (S : Settings) where
  abbrev M : Type 0
  M = RecoveryManager O sha256 S

  round-is_answer :
      (fuel deadline : ℕ) (w : O.World) (r : Result HealthResult)
      → ((v : O.World)
          → deadline < T.time v + fuel
          → 0 < fuel
          → is_answer (await_health O sha256 S fuel deadline v).0 ≡ true)
      → (O.health_check w).0 ≡ r
      → deadline < T.time w + suc fuel
      → is_answer (await_health O sha256 S (suc fuel) deadline w).0 ≡ true
  unfolding await_health
  round-is_answer fuel deadline w (err x) later e room = rw (e, await_health) refl
  round-is_answer fuel deadline w (ok h) later e room =
      rw (e, await_health)
        (let reads = T.reads (O.health_check w).1 in
          let forward = T.forward (O.health_check w).1 in
          let check_forward = T.check_forward w in
          elim (Bool-cases h.is_ok) [
            | inl good ↦ rw good refl
            | inr bad ↦
                rw bad (elim (Bool-cases (leb deadline (O.loop_time (O.health_check w).1).0)) [
                  | inl over ↦ rw over refl
                  | inr early ↦ rw early (
                      later _
                        (ground (
                          arith,
                          T.sleeps (min 500000 (deadline - (O.loop_time (O.health_check w).1).0))
                              (O.loop_time (O.health_check w).1).1,
                        ))
                        (ground arith))
                ])
          ])

  await_health-is_answer :
      (fuel deadline : ℕ) (w : O.World)
      → deadline < T.time w + fuel
      → 0 < fuel
      → is_answer (await_health O sha256 S fuel deadline w).0 ≡ true
  await_health-is_answer zero deadline w room some_fuel = absurd (omega arith)
  await_health-is_answer (suc fuel) deadline w room some_fuel =
      round-is_answer fuel deadline w (O.health_check w).0 (await_health-is_answer fuel deadline)
        refl room

  conclude-is_answer :
      (restored : Bool) (r : Result (Option HealthResult)) (m : M)
      → is_answer r ≡ true
      → is_answer (conclude O sha256 S restored r m).0 ≡ true
  unfolding conclude
  conclude-is_answer restored (err e) m h = refl
  conclude-is_answer restored (ok none) m h = h
  conclude-is_answer restored (ok (some x)) m h = refl

  verify_health-is_answer :
      (restored : Bool) (m : M) → is_answer (verify_health O sha256 S restored m).0 ≡ true
  unfolding verify_health
  verify_health-is_answer restored m =
      let reads = T.reads m.world in
      conclude-is_answer restored _ _
        (await_health-is_answer (S.restart_wait_seconds + 1) _ _ (omega arith) (omega arith))

  after_wait-is_answer :
      (restored : Bool) (r : Result Bool) (m : M)
      → is_answer (after_wait O sha256 S restored r m).0 ≡ true
  unfolding after_wait
  after_wait-is_answer restored (err e) m = refl
  after_wait-is_answer restored (ok false) m = refl
  after_wait-is_answer restored (ok true) m = verify_health-is_answer restored m

  after_restart-is_answer :
      (restored : Bool) (r : Result (Unit {0})) (m : M)
      → is_answer (after_restart O sha256 S restored r m).0 ≡ true
  unfolding after_restart
  after_restart-is_answer restored (err e) m = refl
  after_restart-is_answer restored (ok _) m = after_wait-is_answer restored _ _

  restart-is_answer : (restored : Bool) (m : M) → is_answer (restart O sha256 S restored m).0 ≡ true
  unfolding restart
  restart-is_answer restored m = after_restart-is_answer restored _ _

  after_restore-is_answer :
      (backup : FilePath) (r : Result (Unit {0})) (m : M)
      → is_answer (after_restore O sha256 S backup r m).0 ≡ true
  unfolding after_restore
  after_restore-is_answer backup (ok _) m = restart-is_answer true _
  after_restore-is_answer backup (err e) m = elim (Bool-cases (is_value_error e)) [
    | inl t ↦ rw t refl
    | inr f ↦ rw f refl
  ]

  after_search-is_answer :
      (found : Result (Option FilePath)) (m : M)
      → is_answer (after_search O sha256 S found m).0 ≡ true
  unfolding after_search
  after_search-is_answer (err e) m = elim (Bool-cases (is_os_error e)) [
    | inl t ↦ rw t refl
    | inr f ↦ rw f refl
  ]
  after_search-is_answer (ok none) m = refl
  after_search-is_answer (ok (some backup)) m = after_restore-is_answer backup _ _

  recover-is_answer : (valid : Bool) (m : M) → is_answer (recover O sha256 S valid m).0 ≡ true
  unfolding recover
  recover-is_answer true m = restart-is_answer false m
  recover-is_answer false m = after_search-is_answer _ _

  -- On a loop whose clock does not go back and whose sleeps last, an attempt always returns a result
  -- or raises: the loop that waits for the health check ends by the deadline, so its fuel is enough.
  pub attempt_recovery-answers :
      (valid : Bool) (now : ℕ) (m : M)
      → is_answer (attempt_recovery O sha256 S valid now m).0 ≡ true
  attempt_recovery-answers valid now m = elim (Bool-cases (is_admitted O sha256 S now m)) [
    | inl t ↦ rw (attempt_recovery-admitted O sha256 S valid now m t) (recover-is_answer valid _)
    | inr f ↦ rw (attempt_recovery-Refused O sha256 S valid now m f).gives_up refl
  ]
