-- ===== src/Controller/Recovery/Kept.antt =====
-- What an attempt leaves of the manager's own fields once its guards have passed.
use nexguard_sentinel.Prelude.{
  ℕ, Bool, true, false, Option, none, some, List, ◌≡◌, refl, [], ◌∷◌, suc, ◌==◌, string_eq,
  if◌then◌else◌, Bool-cases, inl, inr,
}
use nexguard_sentinel.Python.Exec.{Result, ok, err, is_os_error, is_value_error}
use nexguard_sentinel.Disk.{Bytes, FilePath}
use nexguard_sentinel.Controller.Log.{LogEvent}
use nexguard_sentinel.Controller.Recovery.{
  Operations, Settings, HealthResult, RecoveryManager, RecoveryStatus, conclude, verify_health,
  after_wait, after_restart, restart, after_restore, after_search, recover,
}

-- The fields that the guards read, and what the log says of the starts.
pub record Fields : Type 0 where
  pub status : RecoveryStatus
  pub attempts : List ℕ
  pub last_attempt : Option ℕ
  -- how many starts the log has
  pub started : ℕ

abbrev pub is_start : LogEvent → Bool
is_start e = e.event_type == "recovery_started"

abbrev pub start_count : List LogEvent → ℕ
start_count [] = 0
start_count (e ∷ log) = if is_start e then suc (start_count log) else start_count log

module _ (O : Operations) (sha256 : Bytes → List ℕ) (S : Settings) where
  abbrev M : Type 0
  M = RecoveryManager O sha256 S

  abbrev pub fields : M → Fields
  fields m = record {
    status = m.status;
    attempts = m.attempts;
    last_attempt = m.last_attempt;
    started = start_count m.log;
  }

  conclude-fields :
      (restored : Bool) (r : Result (Option HealthResult)) (m : M)
      → fields (conclude O sha256 S restored r m).1 ≡ fields m
  unfolding conclude string_eq
  conclude-fields restored (err e) m = refl
  conclude-fields restored (ok none) m = refl
  conclude-fields restored (ok (some h)) m = refl

  verify_health-fields :
      (restored : Bool) (m : M) → fields (verify_health O sha256 S restored m).1 ≡ fields m
  unfolding verify_health
  verify_health-fields restored m = conclude-fields restored _ _

  after_wait-fields :
      (restored : Bool) (r : Result Bool) (m : M)
      → fields (after_wait O sha256 S restored r m).1 ≡ fields m
  unfolding after_wait string_eq
  after_wait-fields restored (err e) m = refl
  after_wait-fields restored (ok false) m = refl
  after_wait-fields restored (ok true) m = verify_health-fields restored m

  after_restart-fields :
      (restored : Bool) (r : Result (Unit {0})) (m : M)
      → fields (after_restart O sha256 S restored r m).1 ≡ fields m
  unfolding after_restart string_eq
  after_restart-fields restored (err e) m = refl
  after_restart-fields restored (ok _) m = after_wait-fields restored _ _

  restart-fields : (restored : Bool) (m : M) → fields (restart O sha256 S restored m).1 ≡ fields m
  unfolding restart
  restart-fields restored m = after_restart-fields restored _ _

  after_restore-fields :
      (backup : FilePath) (r : Result (Unit {0})) (m : M)
      → fields (after_restore O sha256 S backup r m).1 ≡ fields m
  unfolding after_restore string_eq
  after_restore-fields backup (err e) m = elim (Bool-cases (is_value_error e)) [
    | inl t ↦ rw t refl
    | inr f ↦ rw f refl
  ]
  after_restore-fields backup (ok _) m = restart-fields true _

  after_search-fields :
      (r : Result (Option FilePath)) (m : M) → fields (after_search O sha256 S r m).1 ≡ fields m
  unfolding after_search string_eq
  after_search-fields (err e) m = elim (Bool-cases (is_os_error e)) [
    | inl t ↦ rw t refl
    | inr f ↦ rw f refl
  ]
  after_search-fields (ok none) m = refl
  after_search-fields (ok (some backup)) m = after_restore-fields backup _ _

  pub recover-fields :
      (config_valid : Bool) (m : M) → fields (recover O sha256 S config_valid m).1 ≡ fields m
  unfolding recover
  recover-fields true m = restart-fields false m
  recover-fields false m = after_search-fields _ _
