-- ===== src/Controller/Incident.antt =====
-- incident.py and `Incident` of models.py. Times are opaque texts; the clock and the id factory are
-- arguments. The two metrics of the manager are fields of it, and so is what it has logged, newest
-- first.
pub mod History
use nexguard_sentinel.Prelude.{
  ℕ, ◌+◌, String, Bool, true, false, not, ◌||◌, Option, none, some, List, [], ◌∷◌, ltb, ◌==◌,
  nat_eq, if◌then◌else◌, ℤ, pos, negsuc,
}
use nexguard_sentinel.Python.Exec.{Result, ok, err, value_error}
use nexguard_sentinel.Controller.Log.{LogEvent, text, number}

pub record Incident : Type 0 where
  pub id : String
  pub reason : String
  pub opened_at : String
  pub consecutive_failures : ℕ
  pub closed_at : Option String

unfoldable pub is_open : Incident → Bool
is_open i = elim i.closed_at [ none ↦ true | some _ ↦ false ]

pub record IncidentManager : Type 0 where
  pub failure_threshold : ℕ
  pub consecutive_failures : ℕ
  pub current_incident : Option Incident
  -- nexguard_consecutive_health_failures
  pub failures_gauge : ℕ
  -- nexguard_incidents_total
  pub incidents_total : ℕ
  pub log : List LogEvent

-- The constructor and `__post_init__`.
unfoldable pub new_manager : ℤ → Result IncidentManager
new_manager (negsuc n) = err (value_error "failure_threshold must be at least 1")
new_manager (pos threshold) =
    if ltb threshold 1
    then err (value_error "failure_threshold must be at least 1")
    else ok (record {
      failure_threshold = threshold;
      consecutive_failures = 0;
      current_incident = none;
      failures_gauge = 0;
      incidents_total = 0;
      log = [];
    })

abbrev pub is_some {ℓ} : {A : Type ℓ} → Option A → Bool
is_some none = false
is_some (some _) = true

abbrev opened_event : Incident → LogEvent
opened_event i = record {
  event_type = "incident_opened";
  level = "ERROR";
  message = "Gateway incident opened";
  context =
      ("incident_id", text i.id)
      ∷ ("reason", text i.reason)
      ∷ ("consecutive_failures", number i.consecutive_failures)
      ∷ [];
}

abbrev closed_event : Incident → LogEvent
closed_event i = record {
  event_type = "incident_closed";
  level = "INFO";
  message = "Gateway incident closed";
  context = ("incident_id", text i.id) ∷ [];
}

abbrev counted : IncidentManager → IncidentManager
counted m = record m {
  consecutive_failures = m.consecutive_failures + 1;
  failures_gauge = m.consecutive_failures + 1;
}

abbrev open_incident : Incident → IncidentManager → Option Incident × IncidentManager
open_incident i m = (
  some i,
  record m {
    current_incident = some i;
    incidents_total = m.incidents_total + 1;
    log = opened_event i ∷ m.log;
  },
)

-- The new incident if the failure opens one, and the manager. `now` and `id` are what the clock and
-- the id factory return.
unfoldable pub record_failure :
    String → String → String → IncidentManager → Option Incident × IncidentManager
record_failure reason now id m =
    if not (m.consecutive_failures + 1 == m.failure_threshold) || is_some m.current_incident
    then (none, counted m)
    else open_incident
        (record {
          id = id;
          reason = reason;
          opened_at = now;
          consecutive_failures = m.consecutive_failures + 1;
          closed_at = none;
        })
        (counted m)

abbrev reset : IncidentManager → IncidentManager
reset m = record m { consecutive_failures = 0; failures_gauge = 0 }

-- What `record_success` does with the open incident.
abbrev close_incident :
    Option Incident → String → IncidentManager → Option Incident × IncidentManager
close_incident none now m = (none, m)
close_incident (some i) now m = (
  some (record i { closed_at = some now }),
  record m { current_incident = none; log = closed_event i ∷ m.log },
)

-- The incident that the success closes, and the manager.
unfoldable pub record_success : String → IncidentManager → Option Incident × IncidentManager
record_success now m = close_incident m.current_incident now (reset m)
