-- ===== src/Controller/Recovery/Success.antt =====
-- What stands behind a recovery that reports success.
use nexguard_sentinel.Prelude.{
  ℕ, zero, suc, Bool, true, false, Option, none, some, List, leb, ◌≡◌, refl, ap, ◌∙◌, sym, arith,
  Bool-cases, inl, inr,
}
use nexguard_sentinel.Python.Exec.{Result, ok, err, is_os_error, is_value_error}
use nexguard_sentinel.Disk.{Bytes, Disk, FilePath}
use nexguard_sentinel.Controller.Backup.{get_latest_backup, restore_backup}
use nexguard_sentinel.Controller.Recovery.{
  Operations, Settings, HealthResult, RecoveryManager, RecoveryResult, await_health, conclude,
  verify_health, after_wait, after_restart, restart, after_restore, after_search, recover,
  attempt_recovery,
}
use nexguard_sentinel.Controller.Recovery.Guards.{
  is_admitted, attempt_recovery-Refused, attempt_recovery-admitted,
}

module _ (O : Operations) (sha256 : Bytes → List ℕ) (S : Settings) where
  abbrev M : Type 0
  M = RecoveryManager O sha256 S

  abbrev Outcome : Type 0
  Outcome = Result (Option RecoveryResult) × M

  -- The last thing that was done in the world is a health check, which was ok.
  pub record Healthy (w : O.World) : Type 0 where
    pub before : O.World
    pub answer : HealthResult
    pub checked : O.health_check before ≡ (ok answer, w)
    pub answer_ok : answer.is_ok ≡ true

  pair_eq : {A B : Type 0} {p : A × B} {a : A} → p.0 ≡ a → p ≡ (a, p.1)
  pair_eq {p = p} e = ap (λ x. (x, p.1)) e

  abbrev won : Bool → RecoveryResult
  won restored = record { success = true; reason = "ok"; restored_config = restored }

  abbrev is_success : Result (Option RecoveryResult) → Bool
  is_success (ok (some r)) = r.success
  is_success _ = false

  -- An answer of the loop that is ok is that of a health check just made.
  abbrev Backed : Result (Option HealthResult) → O.World → Type 0
  Backed (ok (some h)) w = h.is_ok ≡ true → Healthy w
  Backed _ w = Unit

  round-Backed :
      (fuel deadline : ℕ) (w : O.World) (r : Result HealthResult)
      → ((v : O.World)
          → Backed
              (await_health O sha256 S fuel deadline v).0
              (await_health O sha256 S fuel deadline v).1)
      → (O.health_check w).0 ≡ r
      → Backed
          (await_health O sha256 S (suc fuel) deadline w).0
          (await_health O sha256 S (suc fuel) deadline w).1
  unfolding await_health
  round-Backed fuel deadline w (err x) later e = rw (e, await_health) tt
  round-Backed fuel deadline w (ok h) later e =
      rw (e, await_health)
        (elim (Bool-cases h.is_ok) [
          | inl good ↦
              rw good (λ g. record { before = w; answer = h; checked = pair_eq e; answer_ok = g })
          | inr bad ↦
              rw bad (elim (Bool-cases (leb deadline (O.loop_time (O.health_check w).1).0)) [
                | inl over ↦ rw over (λ g. absurd (ground arith))
                | inr early ↦ rw early (later _)
              ])
        ])

  await_health-Backed :
      (fuel deadline : ℕ) (w : O.World)
      → Backed
          (await_health O sha256 S fuel deadline w).0
          (await_health O sha256 S fuel deadline w).1
  unfolding await_health
  await_health-Backed zero deadline w = tt
  await_health-Backed (suc fuel) deadline w =
      round-Backed fuel deadline w (O.health_check w).0 (await_health-Backed fuel deadline) refl

  -- What a success comes with, given the disk as it was left before the restart.
  record Won (restored : Bool) (d : Disk) (o : Outcome) : Type 0 where
    result : o.0 ≡ ok (some (won restored))
    healthy : Healthy o.1.world
    same_disk : o.1.disk ≡ d

  abbrev Wins : Bool → Disk → Outcome → Type 0
  Wins restored d o = is_success o.0 ≡ true → Won restored d o

  conclude-Wins :
      (restored : Bool) (r : Result (Option HealthResult)) (m : M)
      → Backed r m.world
      → Wins restored m.disk (conclude O sha256 S restored r m)
  unfolding conclude
  conclude-Wins restored (err e) m b = λ s. absurd (ground arith)
  conclude-Wins restored (ok none) m b = λ s. absurd (ground arith)
  conclude-Wins restored (ok (some h)) m b = elim (Bool-cases h.is_ok) [
    | inl good ↦ rw good (λ s. record { result = refl; healthy = b good; same_disk = refl })
    | inr bad ↦ rw bad (λ s. absurd (ground arith))
  ]

  verify_health-Wins :
      (restored : Bool) (m : M) → Wins restored m.disk (verify_health O sha256 S restored m)
  unfolding verify_health
  verify_health-Wins restored m = conclude-Wins restored _ _ (await_health-Backed _ _ _)

  after_wait-Wins :
      (restored : Bool) (r : Result Bool) (m : M)
      → Wins restored m.disk (after_wait O sha256 S restored r m)
  unfolding after_wait
  after_wait-Wins restored (err e) m = λ s. absurd (ground arith)
  after_wait-Wins restored (ok false) m = λ s. absurd (ground arith)
  after_wait-Wins restored (ok true) m = verify_health-Wins restored m

  after_restart-Wins :
      (restored : Bool) (r : Result (Unit {0})) (m : M)
      → Wins restored m.disk (after_restart O sha256 S restored r m)
  unfolding after_restart
  after_restart-Wins restored (err e) m = λ s. absurd (ground arith)
  after_restart-Wins restored (ok _) m = after_wait-Wins restored _ _

  restart-Wins : (restored : Bool) (m : M) → Wins restored m.disk (restart O sha256 S restored m)
  unfolding restart
  restart-Wins restored m = after_restart-Wins restored _ _

  after_restore-Wins :
      (backup : FilePath) (r : Result (Unit {0})) (m : M)
      → is_success (after_restore O sha256 S backup r m).0 ≡ true
      → (r ≡ ok tt) × Won true m.disk (after_restore O sha256 S backup r m)
  unfolding after_restore
  after_restore-Wins backup (ok _) m = λ s. (refl, restart-Wins true _ s)
  after_restore-Wins backup (err e) m = elim (Bool-cases (is_value_error e)) [
    | inl t ↦ rw t (λ s. absurd (ground arith))
    | inr f ↦ rw f (λ s. absurd (ground arith))
  ]

  -- The backup that was restored, and the disk that this left.
  record Restored (found : Result (Option FilePath)) (before after : Disk) : Type 0 where
    backup : FilePath
    latest : found ≡ ok (some backup)
    restored : restore_backup sha256 backup S.config_path before ≡ (ok tt, after)

  -- Where the configuration of a successful recovery comes from.
  pub data Basis (before after : Disk) : Bool → Bool → Type 0 where
    kept : after ≡ before → Basis before after true false
    restored :
        (backup : FilePath)
        → (get_latest_backup S.backup_dir before).0 ≡ ok (some backup)
        → restore_backup sha256 backup S.config_path (get_latest_backup S.backup_dir before).1
          ≡ (ok tt, after)
        → Basis before after false true

  pub record Recovered (valid : Bool) (before : Disk) (r : Result (Option RecoveryResult))
      (after : M) : Type 0 where
    pub is_restored : Bool
    pub result : r ≡ ok (some (won is_restored))
    pub healthy : Healthy after.world
    pub basis : Basis before after.disk valid is_restored

  after_search-Recovered :
      (found : Result (Option FilePath)) (before : Disk) (m : M)
      → (get_latest_backup S.backup_dir before).0 ≡ found
      → m.disk ≡ (get_latest_backup S.backup_dir before).1
      → is_success (after_search O sha256 S found m).0 ≡ true
      → Recovered false before
          (after_search O sha256 S found m).0
          (after_search O sha256 S found m).1
  unfolding after_search
  after_search-Recovered (err e) before m f d = elim (Bool-cases (is_os_error e)) [
    | inl t ↦ rw t (λ s. absurd (ground arith))
    | inr f ↦ rw f (λ s. absurd (ground arith))
  ]
  after_search-Recovered (ok none) before m f d = λ s. absurd (ground arith)
  after_search-Recovered (ok (some backup)) before m f d = λ s.
      let (done, w) = after_restore-Wins backup _ _ s in
      record {
        is_restored = true;
        result = w.result;
        healthy = w.healthy;
        basis =
            restored backup f (rw (sym d) (pair_eq done ∙ ap (λ x. (ok tt, x)) (sym w.same_disk)));
      }

  recover-Recovered :
      (valid : Bool) (m : M)
      → is_success (recover O sha256 S valid m).0 ≡ true
      → Recovered valid m.disk (recover O sha256 S valid m).0 (recover O sha256 S valid m).1
  unfolding recover
  recover-Recovered true m s =
      let w = restart-Wins false m s in
      record {
        is_restored = false;
        result = w.result;
        healthy = w.healthy;
        basis = kept w.same_disk;
      }
  recover-Recovered false m s = after_search-Recovered _ m.disk _ refl refl s

  -- An attempt that reports success was let through by the three guards and ended with a health
  -- check that was ok. It says `restored_config` exactly if the configuration was not valid: then the
  -- restoration of the latest backup returned and the disk is as that left it. Otherwise the disk
  -- is as before.
  pub attempt_recovery-success :
      (valid : Bool) (now : ℕ) (m : M)
      → is_success (attempt_recovery O sha256 S valid now m).0 ≡ true
      → (is_admitted O sha256 S now m ≡ true)
        × Recovered valid m.disk
            (attempt_recovery O sha256 S valid now m).0
            (attempt_recovery O sha256 S valid now m).1
  attempt_recovery-success valid now m s = elim (Bool-cases (is_admitted O sha256 S now m)) [
    | inr f ↦ cc (
      s,
      ap (λ (o : Outcome). is_success o.0)
          (attempt_recovery-Refused O sha256 S valid now m f).gives_up,
    )
    | inl t ↦
        let e = attempt_recovery-admitted O sha256 S valid now m t in
        (t, rw e (recover-Recovered valid _ (rw (sym e) s)))
  ]
