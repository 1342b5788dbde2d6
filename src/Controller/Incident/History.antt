-- ===== src/Controller/Incident/History.antt =====
-- The incidents of a history of health results, newest first.
use nexguard_sentinel.Prelude.{
  ℕ, ◌+◌, ◌<◌, String, true, Option, none, some, List, [], ◌∷◌, leb, ◌==◌, nat_eq, if◌then◌else◌,
  ◌≡◌, arith, pos,
}
use nexguard_sentinel.Python.Exec.{ok}
use nexguard_sentinel.Controller.Incident.{
  Incident, IncidentManager, new_manager, is_some, is_open, record_failure, record_success,
}

-- A health result as the manager hears of it, with what the clock and the id factory return.
pub data Heard : Type 0 where
  failure : String → String → String → Heard
  success : String → Heard

abbrev pub hear : Heard → IncidentManager → IncidentManager
hear (failure reason now id) m = (record_failure reason now id m).1
hear (success now) m = (record_success now m).1

-- The manager after a history.
pub after : IncidentManager → List Heard → IncidentManager
after m [] = m
after m (h ∷ earlier) = hear h (after m earlier)

-- How many failures there have been since the last success.
abbrev pub trailing : List Heard → ℕ
trailing [] = 0
trailing (failure _ _ _ ∷ earlier) = trailing earlier + 1
trailing (success _ ∷ earlier) = 0

-- How many times the failures in a row have reached the threshold.
abbrev pub outages : ℕ → List Heard → ℕ
outages threshold [] = 0
outages threshold (failure _ _ _ ∷ earlier) =
    (if trailing earlier + 1 == threshold then 1 else 0) + outages threshold earlier
outages threshold (success _ ∷ earlier) = outages threshold earlier

abbrev pub StillOpen : Option Incident → Type 0
StillOpen none = Unit
StillOpen (some i) = is_open i ≡ true

-- What the manager knows of the history that it has heard.
pub record Tracks (threshold : ℕ) (history : List Heard) (m : IncidentManager) : Type 0 where
  pub threshold_kept : m.failure_threshold ≡ threshold
  pub counter : m.consecutive_failures ≡ trailing history
  pub gauge : m.failures_gauge ≡ trailing history
  -- There is an incident exactly while the failures have reached the threshold.
  pub incident_open : is_some m.current_incident ≡ leb threshold (trailing history)
  pub still_open : StillOpen m.current_incident
  pub total : m.incidents_total ≡ outages threshold history

pub hear-Tracks :
    (threshold : ℕ) (h : Heard) (history : List Heard) (m : IncidentManager)
    → 0 < threshold
    → Tracks threshold history m
    → Tracks threshold (h ∷ history) (hear h m)
unfolding record_failure record_success is_open
hear-Tracks threshold (failure reason now id) history m p t = ground arith
hear-Tracks threshold (success now) history m p t = ground arith

after-Tracks :
    (threshold : ℕ) (m : IncidentManager) (history : List Heard)
    → 0 < threshold
    → Tracks threshold [] m
    → Tracks threshold history (after m history)
unfolding after
after-Tracks threshold m [] p t = t
after-Tracks threshold m (h ∷ earlier) p t =
    hear-Tracks threshold h earlier (after m earlier) p (after-Tracks threshold m earlier p t)

pub new_manager-Tracks :
    (threshold : ℕ) (m : IncidentManager)
    → new_manager (pos threshold) ≡ ok m
    → (0 < threshold) × Tracks threshold [] m
unfolding new_manager
new_manager-Tracks threshold m h = ground arith

-- A manager that could be created with its threshold, and then heard any history of failures and
-- successes, counts the failures since the last success, has an open incident exactly while they
-- are as many as the threshold or more, and has counted one incident for each time that they
-- reached it.
pub incidents-Tracks :
    (threshold : ℕ) (m : IncidentManager) (history : List Heard)
    → new_manager (pos threshold) ≡ ok m
    → Tracks threshold history (after m history)
incidents-Tracks threshold m history created =
    let (positive, start) = new_manager-Tracks threshold m created in
    after-Tracks threshold m history positive start
