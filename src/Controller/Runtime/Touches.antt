-- ===== src/Controller/Runtime/Touches.antt =====
-- What one health result does to the recovery manager of the runtime.
use nexguard_sentinel.Prelude.{
  ℕ, String, Bool, not, ◌&&◌, ◌||◌, Option, none, some, ℤ, ◌≡◌, refl, Bool-cases, inl, inr,
}
use nexguard_sentinel.Python.Exec.{Result, ok, err}
use nexguard_sentinel.Python.Text.{Text}
use nexguard_sentinel.Controller.Incident
use nexguard_sentinel.Controller.Incident.{is_some, record_failure}
use nexguard_sentinel.Disk.{Bytes, Disk, FilePath}
use nexguard_sentinel.Controller.Backup.Create.{Manifest}
use nexguard_sentinel.Controller.Config.{Libraries}
use nexguard_sentinel.Controller.Recovery.{
  Operations, Settings, HealthResult, RecoveryManager, RecoveryResult, is_manual, attempt_recovery,
}
use nexguard_sentinel.Controller.Runtime.{
  Clock, Runtime, announce, is_backup_failure, is_due, after_backup, back_up, after_latest,
  on_healthy, after_recovery, respond, on_unhealthy, after_check, handle_health_result,
}

module _ (O : Operations) (sha256 : Bytes → Text) (S : Settings) where
  abbrev M : Type 0
  M = RecoveryManager O sha256 S

  -- The manager is as before but for the disk, or as one attempt leaves it.
  pub data Touch (now : ℕ) (m m' : M) : Type 0 where
    untouched : m' ≡ record m { disk = m'.disk } → Touch now m m'
    attempted :
        (valid : Bool) (d : Disk)
        → m' ≡ (attempt_recovery O sha256 S valid now (record m { disk = d })).1
        → Touch now m m'

  Touch-disk :
      (now : ℕ) (d : Disk) (m m' : M) → Touch now (record m { disk = d }) m' → Touch now m m'
  Touch-disk now d m m' (untouched e) = untouched e
  Touch-disk now d m m' (attempted valid d' e) = attempted valid d' e

  module _ (L : Libraries) (manifest_json : Manifest → Bytes) (backup_interval : ℕ)
      (backup_retention : ℤ) where
    abbrev R : Type 0
    R = Runtime O sha256 S L manifest_json backup_interval backup_retention

    after_backup-untouched :
        (t : Clock) (made : Result FilePath) (r : R)
        → (after_backup O sha256 S L manifest_json backup_interval backup_retention t made
            r).1.recovery
          ≡ r.recovery
    unfolding after_backup
    after_backup-untouched t (ok p) r = refl
    after_backup-untouched t (err e) r = elim (Bool-cases (is_backup_failure e)) [
      | inl y ↦ rw y refl
      | inr n ↦ rw n refl
    ]

    back_up-Touch :
        (t : Clock) (r : R)
        → Touch t.recovery_monotonic r.recovery
            (back_up O sha256 S L manifest_json backup_interval backup_retention t r).1.recovery
    unfolding back_up
    back_up-Touch t r = untouched (rw (after_backup-untouched t _ _) refl)

    after_latest-Touch :
        (t : Clock) (valid : Bool) (latest : Result (Option FilePath)) (r : R)
        → Touch t.recovery_monotonic r.recovery
            (after_latest O sha256 S L manifest_json backup_interval backup_retention t valid latest
              r).1.recovery
    unfolding after_latest
    after_latest-Touch t valid (err e) r = untouched refl
    after_latest-Touch t valid (ok latest) r =
        elim (Bool-cases (valid && is_due backup_interval t.monotonic latest r.last_backup)) [
          | inl y ↦ rw y (back_up-Touch t r)
          | inr n ↦ rw n (untouched refl)
        ]

    on_healthy-Touch :
        (t : Clock) (valid : Bool) (r : R)
        → Touch t.recovery_monotonic r.recovery
            (on_healthy O sha256 S L manifest_json backup_interval backup_retention t valid
              r).1.recovery
    unfolding on_healthy
    on_healthy-Touch t valid r =
        Touch-disk t.recovery_monotonic _ r.recovery _ (after_latest-Touch t valid _ _)

    after_recovery-untouched :
        (t : Clock) (why : String) (done : Result (Option RecoveryResult)) (r : R)
        → (after_recovery O sha256 S L manifest_json backup_interval backup_retention t why done
            r).1.recovery
          ≡ r.recovery
    unfolding after_recovery
    after_recovery-untouched t why (err e) r = refl
    after_recovery-untouched t why (ok none) r = refl
    after_recovery-untouched t why (ok (some result)) r = elim (Bool-cases result.success) [
      | inl y ↦ rw y refl
      | inr n ↦ rw n refl
    ]

    respond-Touch :
        (t : Clock) (valid : Bool) (why : String) (o : Option Incident.Incident) (r : R)
        → Touch t.recovery_monotonic r.recovery
            (respond O sha256 S L manifest_json backup_interval backup_retention t valid why
              (announce O sha256 S L manifest_json backup_interval backup_retention o r)).1.recovery
    unfolding respond
    respond-Touch t valid why none r =
        elim (Bool-cases
          (not (is_some r.incidents.current_incident) || is_manual r.recovery.status)) [
            | inl y ↦ rw y (untouched refl)
            | inr n ↦ rw n (attempted valid r.recovery.disk (after_recovery-untouched t why _ _))
          ]
    respond-Touch t valid why (some i) r =
        elim (Bool-cases
          (not (is_some r.incidents.current_incident) || is_manual r.recovery.status)) [
            | inl y ↦ rw y (untouched refl)
            | inr n ↦ rw n (attempted valid r.recovery.disk (after_recovery-untouched t why _ _))
          ]

    after_check-Touch :
        (t : Clock) (health : HealthResult) (checked : Result (Bool × String)) (r : R)
        → Touch t.recovery_monotonic r.recovery
            (after_check O sha256 S L manifest_json backup_interval backup_retention t health
              checked r).1.recovery
    unfolding after_check on_unhealthy
    after_check-Touch t health (err e) r = untouched refl
    after_check-Touch t health (ok (valid, why)) r = elim (Bool-cases health.is_ok) [
      | inl y ↦ rw y (on_healthy-Touch t valid _)
      | inr n ↦ rw n (
          respond-Touch t valid why
            (record_failure health.reason t.opened_utc t.new_id r.incidents).0 _)
    ]

    -- A health result starts one attempt at most.
    pub handle_health_result-Touch :
        (t : Clock) (health : HealthResult) (r : R)
        → Touch t.recovery_monotonic r.recovery
            (handle_health_result O sha256 S L manifest_json backup_interval backup_retention t
              health r).1.recovery
    unfolding handle_health_result
    handle_health_result-Touch t health r =
        Touch-disk t.recovery_monotonic _ r.recovery _ (after_check-Touch t health _ _)
