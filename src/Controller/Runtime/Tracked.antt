-- ===== src/Controller/Runtime/Tracked.antt =====
-- What the incident manager of the runtime hears over any sequence of health results.
pub mod Reports
use nexguard_sentinel.Prelude.{
  ℕ, ◌+◌, ◌<◌, ltb, String, Bool, true, false, not, ◌&&◌, ◌||◌, Option, none, some, List, [], ◌∷◌,
  ◌++◌, if◌then◌else◌, ℤ, pos, ◌≡◌, refl, ap, subst, ◌∙◌, arith, Bool-cases, inl, inr,
}
use nexguard_sentinel.Python.Exec.{Result, ok, err}
use nexguard_sentinel.Python.Text.{Text}
use nexguard_sentinel.Controller.Incident
use nexguard_sentinel.Controller.Incident.{
  IncidentManager, is_some, record_failure, record_success, new_manager,
}
use nexguard_sentinel.Controller.Incident.History.{
  Heard, failure, success, hear, Tracks, hear-Tracks, new_manager-Tracks,
}
use nexguard_sentinel.Disk.{Bytes, FilePath}
use nexguard_sentinel.Controller.Backup.Create.{Manifest}
use nexguard_sentinel.Controller.Config.{Libraries, check_config}
use nexguard_sentinel.Controller.Recovery.{
  Operations, Settings, HealthResult, RecoveryResult, is_manual,
}
use nexguard_sentinel.Controller.Runtime.{
  Clock, Runtime, announce, is_backup_failure, is_due, after_backup, back_up, after_latest,
  on_healthy, after_recovery, respond, on_unhealthy, after_check, handle_health_result,
}
use nexguard_sentinel.Controller.Runtime.Rounds.{Rounds, after_rounds}
use nexguard_sentinel.Controller.Runtime.Tracked.Reports.{
  recovery_heard, heard_of, hear_all, after_check-heard,
}

module _ (O : Operations) (sha256 : Bytes → Text) (S : Settings) (L : Libraries)
    (manifest_json : Manifest → Bytes) (backup_interval : ℕ) (backup_retention : ℤ) where
  abbrev R : Type 0
  R = Runtime O sha256 S L manifest_json backup_interval backup_retention

  abbrev handled : Clock → HealthResult → R → R
  handled t health r =
      (handle_health_result O sha256 S L manifest_json backup_interval backup_retention t health
        r).1

  abbrev check_of : R → Result (Bool × String)
  check_of r = (check_config L S.config_path r.recovery.disk).0

  -- What the incidents have heard over the rounds, newest first.
  unfoldable pub heard_in :
      R → Rounds O sha256 S L manifest_json backup_interval backup_retention → List Heard
  heard_in r [] = []
  heard_in r ((t, health) ∷ earlier) =
      let before =
        after_rounds O sha256 S L manifest_json backup_interval backup_retention r earlier in
      heard_of t health (check_of before) before.recoveries_total
        (handled t health before).recoveries_total
      ++ heard_in r earlier

  hear_all-Tracks :
      (threshold : ℕ) (more history : List Heard) (m : IncidentManager)
      → 0 < threshold
      → Tracks threshold history m
      → Tracks threshold (more ++ history) (hear_all more m)
  hear_all-Tracks threshold [] history m p k = k
  hear_all-Tracks threshold (h ∷ more) history m p k =
      hear-Tracks threshold h (more ++ history) (hear_all more m) p
        (hear_all-Tracks threshold more history m p k)

  handled-Tracks :
      (threshold : ℕ) (t : Clock) (health : HealthResult) (history : List Heard) (r : R)
      → 0 < threshold
      → Tracks threshold history r.incidents
      → Tracks threshold
          (heard_of t health (check_of r) r.recoveries_total (handled t health r).recoveries_total
            ++ history)
          (handled t health r).incidents
  unfolding handle_health_result
  handled-Tracks threshold t health history r p k =
      rw
        (after_check-heard O sha256 S L manifest_json backup_interval backup_retention t health
          (check_of r) _)
        (hear_all-Tracks threshold _ history r.incidents p k)

  rounds-Tracks :
      (threshold : ℕ) (r : R)
      (rounds : Rounds O sha256 S L manifest_json backup_interval backup_retention)
      → 0 < threshold
      → Tracks threshold [] r.incidents
      → Tracks threshold
          (heard_in r rounds)
          (after_rounds O sha256 S L manifest_json backup_interval backup_retention r
            rounds).incidents
  unfolding heard_in after_rounds
  rounds-Tracks threshold r [] p k = k
  rounds-Tracks threshold r ((t, health) ∷ earlier) p k =
      handled-Tracks threshold t health (heard_in r earlier) _ p
        (rounds-Tracks threshold r earlier p k)

  -- A runtime with a new incident manager handles any sequence of health results: each one counts as
  -- a failure or a success, a recovery that is counted after a failure counts as a success, and a
  -- result at which the check of the configuration raises counts as neither. Of this history the
  -- counter of failures, its gauge, the open incident and the count of incidents say what they say
  -- of any history: an incident is open exactly while the failures since the last success are as
  -- many as the threshold or more.
  pub after_rounds-Tracks :
      (threshold : ℕ) (r : R)
      (rounds : Rounds O sha256 S L manifest_json backup_interval backup_retention)
      → new_manager (pos threshold) ≡ ok r.incidents
      → Tracks threshold
          (heard_in r rounds)
          (after_rounds O sha256 S L manifest_json backup_interval backup_retention r
            rounds).incidents
  after_rounds-Tracks threshold r rounds created =
      let (positive, start) = new_manager-Tracks threshold r.incidents created in
      rounds-Tracks threshold r rounds positive start
