-- ===== src/Controller/Runtime/Tracked/Reports.antt =====
-- What the incident manager of the runtime hears of one health result.
use nexguard_sentinel.Prelude.{
  ℕ, ◌+◌, ltb, String, Bool, true, false, not, ◌&&◌, ◌||◌, Option, none, some, List, [], ◌∷◌, ◌++◌,
  if◌then◌else◌, ℤ, ◌≡◌, refl, ap, subst, ◌∙◌, arith, Bool-cases, inl, inr,
}
use nexguard_sentinel.Python.Exec.{Result, ok, err}
use nexguard_sentinel.Python.Text.{Text}
use nexguard_sentinel.Controller.Incident
use nexguard_sentinel.Controller.Incident.{
  IncidentManager, is_some, record_failure, record_success, new_manager,
}
use nexguard_sentinel.Controller.Incident.History.{Heard, failure, success, hear}
use nexguard_sentinel.Disk.{Bytes, FilePath}
use nexguard_sentinel.Controller.Backup.Create.{Manifest}
use nexguard_sentinel.Controller.Config.{Libraries}
use nexguard_sentinel.Controller.Recovery.{
  Operations, Settings, HealthResult, RecoveryResult, is_manual,
}
use nexguard_sentinel.Controller.Runtime.{
  Clock, Runtime, announce, is_backup_failure, is_due, after_backup, back_up, after_latest,
  on_healthy, after_recovery, respond, on_unhealthy, after_check,
}

-- What the incidents hear of a failure: of the failure, and of the recovery if one is counted.
abbrev pub recovery_heard : Clock → ℕ → ℕ → List Heard
recovery_heard t before later = if ltb before later then success t.closed_utc ∷ [] else []

-- What they hear of a health result, newest first: nothing if the check of the configuration
-- raises.
abbrev pub heard_of : Clock → HealthResult → Result (Bool × String) → ℕ → ℕ → List Heard
heard_of t health (err e) before later = []
heard_of t health (ok _) before later =
    if health.is_ok
    then success t.closed_utc ∷ []
    else recovery_heard t before later ++ failure health.reason t.opened_utc t.new_id ∷ []

abbrev pub hear_all : List Heard → IncidentManager → IncidentManager
hear_all [] m = m
hear_all (h ∷ earlier) m = hear h (hear_all earlier m)

module _ (O : Operations) (sha256 : Bytes → Text) (S : Settings) (L : Libraries)
    (manifest_json : Manifest → Bytes) (backup_interval : ℕ) (backup_retention : ℤ) where
  abbrev R : Type 0
  R = Runtime O sha256 S L manifest_json backup_interval backup_retention

  -- A backup does not concern the incidents.
  after_backup-incidents :
      (t : Clock) (made : Result FilePath) (r : R)
      → (after_backup O sha256 S L manifest_json backup_interval backup_retention t made
          r).1.incidents
        ≡ r.incidents
  unfolding after_backup
  after_backup-incidents t (ok p) r = refl
  after_backup-incidents t (err e) r = elim (Bool-cases (is_backup_failure e)) [
    | inl y ↦ rw y refl
    | inr n ↦ rw n refl
  ]

  after_latest-incidents :
      (t : Clock) (valid : Bool) (latest : Result (Option FilePath)) (r : R)
      → (after_latest O sha256 S L manifest_json backup_interval backup_retention t valid latest
          r).1.incidents
        ≡ r.incidents
  unfolding after_latest back_up
  after_latest-incidents t valid (err e) r = refl
  after_latest-incidents t valid (ok latest) r =
      elim (Bool-cases (valid && is_due backup_interval t.monotonic latest r.last_backup)) [
        | inl y ↦ rw y (after_backup-incidents t _ _)
        | inr n ↦ rw n refl
      ]

  -- The incidents are as before, or have heard of a success that the count of recoveries shows.
  data Reported (t : Clock) (r r' : R) : Type 0 where
    nothing :
        r'.incidents ≡ r.incidents → r'.recoveries_total ≡ r.recoveries_total → Reported t r r'
    recovered :
        r'.incidents ≡ hear (success t.closed_utc) r.incidents
        → r'.recoveries_total ≡ r.recoveries_total + 1
        → Reported t r r'

  after_recovery-Reported :
      (t : Clock) (why : String) (done : Result (Option RecoveryResult)) (r : R)
      → Reported t r
          (after_recovery O sha256 S L manifest_json backup_interval backup_retention t why done
            r).1
  unfolding after_recovery
  after_recovery-Reported t why (err e) r = nothing refl refl
  after_recovery-Reported t why (ok none) r = nothing refl refl
  after_recovery-Reported t why (ok (some result)) r = elim (Bool-cases result.success) [
    | inl y ↦ rw y (recovered refl refl)
    | inr n ↦ rw n (nothing refl refl)
  ]

  respond-Reported :
      (t : Clock) (valid : Bool) (why : String) (r : R)
      → Reported t r
          (respond O sha256 S L manifest_json backup_interval backup_retention t valid why r).1
  unfolding respond
  respond-Reported t valid why r =
      elim (Bool-cases
        (not (is_some r.incidents.current_incident) || is_manual r.recovery.status)) [
          | inl y ↦ rw y (nothing refl refl)
          | inr n ↦ rw n (again (after_recovery-Reported t why _ _))
        ]
    where
      again : {m : _} {r' : R} → Reported t (record r { recovery = m }) r' → Reported t r r'
      again (nothing a b) = nothing a b
      again (recovered a b) = recovered a b

  Reported-heard :
      (t : Clock) (reason : String) (r r' : R) (m : IncidentManager)
      → r.incidents ≡ hear (failure reason t.opened_utc t.new_id) m
      → Reported t r r'
      → r'.incidents
        ≡ hear_all
            (recovery_heard t r.recoveries_total r'.recoveries_total
              ++ failure reason t.opened_utc t.new_id ∷ [])
            m
  Reported-heard t reason r r' m h (nothing a b) =
      let f : ltb r.recoveries_total r'.recoveries_total ≡ false = ground arith in rw f (a ∙ h)
  Reported-heard t reason r r' m h (recovered a b) =
      let f : ltb r.recoveries_total r'.recoveries_total ≡ true = ground arith in
      rw f (a ∙ ap (hear (success t.closed_utc)) h)

  announced-Reported :
      (t : Clock) (valid : Bool) (why : String) (o : Option Incident.Incident) (r : R)
      → Reported t r
          (respond O sha256 S L manifest_json backup_interval backup_retention t valid why
            (announce O sha256 S L manifest_json backup_interval backup_retention o r)).1
  announced-Reported t valid why none r = respond-Reported t valid why r
  announced-Reported t valid why (some i) r =
      elim (respond-Reported t valid why
        (announce O sha256 S L manifest_json backup_interval backup_retention (some i) r)) [
          | nothing a b ↦ nothing a b
          | recovered a b ↦ recovered a b
        ]

  on_unhealthy-heard :
      (t : Clock) (reason : String) (valid : Bool) (why : String) (r r' : R)
      → (on_unhealthy O sha256 S L manifest_json backup_interval backup_retention t reason valid why
          r).1
        ≡ r'
      → r'.incidents
        ≡ hear_all
            (recovery_heard t r.recoveries_total r'.recoveries_total
              ++ failure reason t.opened_utc t.new_id ∷ [])
            r.incidents
  unfolding on_unhealthy
  on_unhealthy-heard t reason valid why r r' h =
      let counted : R = record r {
        incidents = (record_failure reason t.opened_utc t.new_id r.incidents).1;
      } in
      Reported-heard t reason counted r' r.incidents refl (
        subst (λ x. Reported t counted x) h
          (announced-Reported t valid why
            (record_failure reason t.opened_utc t.new_id r.incidents).0 counted))

  on_healthy-heard :
      (t : Clock) (valid : Bool) (r : R)
      → (on_healthy O sha256 S L manifest_json backup_interval backup_retention t valid
          r).1.incidents
        ≡ hear (success t.closed_utc) r.incidents
  unfolding on_healthy
  on_healthy-heard t valid r = after_latest-incidents t valid _ _

  pub after_check-heard :
      (t : Clock) (health : HealthResult) (checked : Result (Bool × String)) (r : R)
      → (after_check O sha256 S L manifest_json backup_interval backup_retention t health checked
          r).1.incidents
        ≡ hear_all
            (heard_of t health checked r.recoveries_total
              (after_check O sha256 S L manifest_json backup_interval backup_retention t health
                checked r).1.recoveries_total)
            r.incidents
  unfolding after_check
  after_check-heard t health (err e) r = refl
  after_check-heard t health (ok (valid, why)) r = elim (Bool-cases health.is_ok) [
    | inl y ↦ rw y (on_healthy-heard t valid _)
    | inr n ↦ rw n (on_unhealthy-heard t health.reason valid why _ _ refl)
  ]
