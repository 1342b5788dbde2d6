-- ===== src/Controller/Health/Tests.antt =====
-- The monitor's guarantees at a concrete client.
use nexguard_sentinel.Prelude.{
  ℕ, ◌+◌, ltb, String, true, false, none, some, List, [], ◌∷◌, nat_eq, if◌then◌else◌, ◌≡◌, refl,
  arith, Bool-cases, inl, inr,
}
use nexguard_sentinel.Python.Exec.{ok, Exec, pure}
use nexguard_sentinel.Python.Text.{codes}
use nexguard_sentinel.Controller.Log.{Value}
use nexguard_sentinel.Controller.Models.{HealthResult}
use nexguard_sentinel.Controller.Health.{
  Client, Settings, Watch, check_event, failure_reason, after_request, check_once, round, pause,
  decimal_string,
}
use nexguard_sentinel.Controller.Health.Schedule.{
  IsTimely, IsPrompt, Return, Scheduled, run-Scheduled,
}
use nexguard_sentinel.Controller.Health.Classified.{Classified, check_once-Classified}

-- The world is the time. A request takes two ticks, and a sleep one tick too many. The service is
-- up before the tick 20.
abbrev client : Client
client = record {
  World = ℕ;
  Response = ℕ;
  Json = ℕ;
  get = λ url timeout w. (ok (if ltb w 20 then 200 else 503), w + 2);
  status_code = λ r. r;
  json = λ r. ok r;
  reason_of = λ j. none;
  is_request_error = λ e. true;
  monotonic = λ w. (w, w);
  utc = λ w. ("now", w);
  sleep = λ d w. w + d + 1;
}

abbrev settings : Settings
settings = record { health_url = codes "/health"; interval_seconds = 10; timeout_seconds = 5 }

abbrev is_timely : IsTimely client 1
is_timely = record {
  time = λ w. w;
  reads = λ w. refl;
  at_once = λ w. refl;
  sleeps = λ d w. omega arith;
  wakes = λ d w. omega arith;
}

abbrev callback : HealthResult → Exec (Watch client settings) (Unit {0})
callback h = pure tt

abbrev start : Watch client settings
start = record { world = 7; log = [] }

round_time : (s : Watch client settings) → (round client settings callback s).1.world ≡ s.world + 2
unfolding round check_once after_request failure_reason nat_eq
round_time s = elim (Bool-cases (ltb s.world 20)) [ inl up ↦ rw up refl | inr down ↦ rw down refl ]

is_prompt : IsPrompt client settings 1 is_timely callback
unfolding IsPrompt
is_prompt d s h = let e = round_time s in omega arith

returned : Return client settings 1 is_timely callback 2 7 start
unfolding Return round check_once after_request pause nat_eq
returned = (refl, (refl, tt))

run-Scheduled_example : Scheduled client settings 1 is_timely callback 2 1 7 start
run-Scheduled_example =
    run-Scheduled client settings 1 is_timely callback 2 1 start is_prompt returned

-- At the tick 30 the service is down.
abbrev late : Watch client settings
late = record { world = 30; log = [] }

abbrev unavailable : HealthResult
unavailable = record {
  is_ok = false;
  reason = "http_503";
  checked_at = "now";
  status_code = some 503;
  duration = 2;
}

check_once-unavailable : (check_once client settings late).0 ≡ ok unavailable
unfolding check_once after_request failure_reason decimal_string nat_eq
check_once-unavailable = refl

check_once-Classified_example :
    Classified client settings (ok 503) unavailable
    × ((error : List (String × Value)) × ((check_once client settings late).1.log
          ≡ check_event client settings unavailable error ∷ []))
check_once-Classified_example =
    check_once-Classified client settings late unavailable check_once-unavailable
