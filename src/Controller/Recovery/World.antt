-- ===== src/Controller/Recovery/World.antt =====
-- What a recovery keeps of the world: whatever its five operations keep.
use nexguard_sentinel.Prelude.{
  ℕ, zero, suc, Bool, true, false, Option, none, some, List, leb, length, ◌≡◌, refl, Bool-cases,
  inl, inr,
}
use nexguard_sentinel.Python.Exec.{Result, ok, err, is_os_error, is_value_error}
use nexguard_sentinel.Disk.{Bytes, FilePath}
use nexguard_sentinel.Controller.Recovery.{
  Operations, Settings, HealthResult, RecoveryManager, is_manual, is_cooling, await_health,
  conclude, verify_health, after_wait, after_restart, restart, after_restore, after_search, recover,
  begin, guarded, attempt_recovery,
}

-- The operations on the configured container keep `I`.
pub record Frame (O : Operations) (S : Settings) (I : O.World → Type 0) : Type 0 where
  pub restarts : (w : O.World) → I w → I (O.restart_container S.container_name w).1
  pub waits :
      (w : O.World) → I w → I (O.wait_for_running S.container_name S.restart_wait_seconds w).1
  pub checks : (w : O.World) → I w → I (O.health_check w).1
  pub reads : (w : O.World) → I w → I (O.loop_time w).1
  pub sleeps : (d : ℕ) (w : O.World) → I w → I (O.loop_sleep d w)

module _ (O : Operations) (sha256 : Bytes → List ℕ) (S : Settings) (I : O.World → Type 0)
    (F : Frame O S I) where
  abbrev M : Type 0
  M = RecoveryManager O sha256 S

  round-world :
      (fuel deadline : ℕ) (w : O.World) (r : Result HealthResult)
      → ((v : O.World) → I v → I (await_health O sha256 S fuel deadline v).1)
      → (O.health_check w).0 ≡ r
      → I w
      → I (await_health O sha256 S (suc fuel) deadline w).1
  unfolding await_health
  round-world fuel deadline w (err x) later e i = rw (e, await_health) (F.checks w i)
  round-world fuel deadline w (ok h) later e i =
      rw (e, await_health)
        (let checked = F.checks w i in
          let timed = F.reads (O.health_check w).1 checked in
          elim (Bool-cases h.is_ok) [
            | inl good ↦ rw good checked
            | inr bad ↦
                rw bad (elim (Bool-cases (leb deadline (O.loop_time (O.health_check w).1).0)) [
                  | inl over ↦ rw over timed
                  | inr early ↦ rw early (later _ (F.sleeps _ _ timed))
                ])
          ])

  await_health-world :
      (fuel deadline : ℕ) (w : O.World) → I w → I (await_health O sha256 S fuel deadline w).1
  unfolding await_health
  await_health-world zero deadline w i = i
  await_health-world (suc fuel) deadline w i =
      round-world fuel deadline w (O.health_check w).0 (await_health-world fuel deadline) refl i

  conclude-world :
      (restored : Bool) (r : Result (Option HealthResult)) (m : M)
      → I m.world
      → I (conclude O sha256 S restored r m).1.world
  unfolding conclude
  conclude-world restored (err e) m i = i
  conclude-world restored (ok none) m i = i
  conclude-world restored (ok (some h)) m i = i

  verify_health-world :
      (restored : Bool) (m : M) → I m.world → I (verify_health O sha256 S restored m).1.world
  unfolding verify_health
  verify_health-world restored m i =
      conclude-world restored _ _ (await_health-world _ _ _ (F.reads m.world i))

  after_wait-world :
      (restored : Bool) (r : Result Bool) (m : M)
      → I m.world
      → I (after_wait O sha256 S restored r m).1.world
  unfolding after_wait
  after_wait-world restored (err e) m i = i
  after_wait-world restored (ok false) m i = i
  after_wait-world restored (ok true) m i = verify_health-world restored m i

  after_restart-world :
      (restored : Bool) (r : Result (Unit {0})) (m : M)
      → I m.world
      → I (after_restart O sha256 S restored r m).1.world
  unfolding after_restart
  after_restart-world restored (err e) m i = i
  after_restart-world restored (ok _) m i = after_wait-world restored _ _ (F.waits m.world i)

  restart-world : (restored : Bool) (m : M) → I m.world → I (restart O sha256 S restored m).1.world
  unfolding restart
  restart-world restored m i = after_restart-world restored _ _ (F.restarts m.world i)

  after_restore-world :
      (backup : FilePath) (r : Result (Unit {0})) (m : M)
      → I m.world
      → I (after_restore O sha256 S backup r m).1.world
  unfolding after_restore
  after_restore-world backup (err e) m i = elim (Bool-cases (is_value_error e)) [
    | inl t ↦ rw t i
    | inr f ↦ rw f i
  ]
  after_restore-world backup (ok _) m i = restart-world true _ i

  after_search-world :
      (r : Result (Option FilePath)) (m : M) → I m.world → I (after_search O sha256 S r m).1.world
  unfolding after_search
  after_search-world (err e) m i = elim (Bool-cases (is_os_error e)) [
    | inl t ↦ rw t i
    | inr f ↦ rw f i
  ]
  after_search-world (ok none) m i = i
  after_search-world (ok (some backup)) m i = after_restore-world backup _ _ i

  recover-world :
      (config_valid : Bool) (m : M) → I m.world → I (recover O sha256 S config_valid m).1.world
  unfolding recover
  recover-world true m i = restart-world false m i
  recover-world false m i = after_search-world _ _ i

  guarded-world :
      (valid : Bool) (now : ℕ) (m : M) → I m.world → I (guarded O sha256 S valid now m).1.world
  unfolding guarded
  guarded-world valid now m i = elim (Bool-cases (is_manual m.status)) [
    | inl t ↦ rw t i
    | inr f ↦ rw f (elim (Bool-cases (leb S.max_recoveries_per_window (length m.attempts))) [
      | inl full ↦ rw full i
      | inr room ↦ rw room (elim (Bool-cases (is_cooling S.cooldown_seconds now m.last_attempt)) [
        | inl cooling ↦ rw cooling i
        | inr cool ↦ rw cool (recover-world valid (begin O sha256 S now m) i)
      ])
    ])
  ]

  pub attempt_recovery-world :
      (valid : Bool) (now : ℕ) (m : M)
      → I m.world
      → I (attempt_recovery O sha256 S valid now m).1.world
  unfolding attempt_recovery
  attempt_recovery-world valid now m i = guarded-world valid now _ i
