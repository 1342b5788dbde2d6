-- ===== src/Controller/Health.antt =====
-- health_monitor.py. The HTTP client, the clocks and `sleep` are parameters, over an unknown world,
-- in which the callback of the supervision loop works too. Times are whole ticks.
pub mod Schedule
pub mod Classified
pub mod World
mod Tests
use Prim.Native.String.{◌++◌}
use nexguard_sentinel.Prelude.{
  ℕ, zero, suc, ◌+◌, ◌-◌, ◌/◌, ◌%◌, String, Bool, true, false, Option, none, some, List, [], ◌∷◌,
  ltb, ◌==◌, nat_eq, if◌then◌else◌,
}
use nexguard_sentinel.Python.Exec.{
  Exception, Result, ok, err, value_error, unicode_error, Exec, pure, ◌>>=◌, ◌>>◌,
}
use nexguard_sentinel.Python.Text.{Text}
use nexguard_sentinel.Controller.Log.{LogEvent, Value, text, number, flag, null, error_name}
use nexguard_sentinel.Controller.Models.{HealthResult}

pub record Client : Type 1 where
  pub World : Type 0
  pub Response : Type 0
  pub Json : Type 0
  -- the request, with its timeout
  pub get : Text → ℕ → Exec World Response
  pub status_code : Response → ℕ
  pub json : Response → Result Json
  -- payload["reason"], where the payload is a dict and this is a str
  pub reason_of : Json → Option String
  -- `except httpx.RequestError`
  pub is_request_error : Exception → Bool
  pub monotonic : World → ℕ × World
  pub utc : World → String × World
  pub sleep : ℕ → World → World

-- `except ValueError`
abbrev pub is_bad_json : Exception → Bool
is_bad_json (value_error _) = true
is_bad_json unicode_error = true
is_bad_json _ = false

abbrev pub decimal_digit : ℕ → String
decimal_digit zero = "0"
decimal_digit (suc zero) = "1"
decimal_digit (suc (suc zero)) = "2"
decimal_digit (suc (suc (suc zero))) = "3"
decimal_digit (suc (suc (suc (suc zero)))) = "4"
decimal_digit (suc (suc (suc (suc (suc zero))))) = "5"
decimal_digit (suc (suc (suc (suc (suc (suc zero)))))) = "6"
decimal_digit (suc (suc (suc (suc (suc (suc (suc zero))))))) = "7"
decimal_digit (suc (suc (suc (suc (suc (suc (suc (suc zero)))))))) = "8"
decimal_digit (suc (suc (suc (suc (suc (suc (suc (suc (suc n))))))))) = "9"

-- The decimal text of a status code. The fuel is more than the digits.
unfoldable pub decimal_string : ℕ → ℕ → String
decimal_string zero n = ""
decimal_string (suc fuel) n =
    let leading = decimal_string fuel (n / 10) in
    if ltb n 10 then decimal_digit n else leading ++ decimal_digit (n % 10)

-- f"http_{response.status_code}"
abbrev pub http_reason : ℕ → String
http_reason n = "http_" ++ decimal_string (n + 1) n

-- The settings of the monitor.
pub record Settings : Type 0 where
  pub health_url : Text
  pub interval_seconds : ℕ
  pub timeout_seconds : ℕ

module _ (C : Client) (S : Settings) where
  open C use {World, Response, get, json, monotonic, utc, sleep}

  -- The world, and what the monitor has logged, newest first.
  pub record Watch : Type 0 where
    pub world : World
    pub log : List LogEvent

  abbrev pub status_value : Option ℕ → Value
  status_value none = null
  status_value (some n) = number n

  abbrev pub check_event : HealthResult → List (String × Value) → LogEvent
  check_event result error = record {
    event_type = "health_check";
    level = if result.is_ok then "INFO" else "WARNING";
    message =
        if result.is_ok then "Gateway health check succeeded" else "Gateway health check failed";
    context =
        ("ok", flag result.is_ok)
        ∷ ("reason", text result.reason)
        ∷ ("status_code", status_value result.status_code)
        ∷ ("duration_seconds", number result.duration)
        ∷ error;
  }

  -- The reason of a response that is not 200, from its JSON.
  unfoldable pub failure_reason : ℕ → Result C.Json → Result String
  failure_reason status (ok payload) = elim (C.reason_of payload) [
    | none ↦ ok (http_reason status)
    | some reason ↦ ok reason
  ]
  failure_reason status (err e) = if is_bad_json e then ok (http_reason status) else err e

  abbrev pub logged :
      HealthResult → List (String × Value) → World → List LogEvent → Result HealthResult × Watch
  logged result error w log =
      (ok result, record { world = w; log = check_event result error ∷ log })

  -- `except httpx.RequestError`. A duration below zero counts as zero.
  unfoldable pub raised :
      ℕ → String → Exception → World → List LogEvent → Result HealthResult × Watch
  raised started checked_at e w log =
      let (now, w') = monotonic w in
      if C.is_request_error e
      then logged
          (record {
            is_ok = false;
            reason = "network_error";
            checked_at = checked_at;
            status_code = none;
            duration = now - started;
          })
          (("error_type", error_name e) ∷ []) w' log
      else (err e, record { world = w; log = log })

  abbrev pub failed :
      ℕ → String → ℕ → ℕ → Result String → World → List LogEvent → Result HealthResult × Watch
  failed started checked_at status duration (err e) w log = raised started checked_at e w log
  failed started checked_at status duration (ok reason) w log =
      logged
        (record {
          is_ok = false;
          reason = reason;
          checked_at = checked_at;
          status_code = some status;
          duration = duration;
        })
        [] w log

  -- The request has returned or raised.
  unfoldable pub after_request :
      ℕ → String → Result Response → World → List LogEvent → Result HealthResult × Watch
  after_request started checked_at (ok response) w log =
      let (now, w') = monotonic w in
      let status = C.status_code response in
      if status == 200
      then logged
          (record {
            is_ok = true;
            reason = "ok";
            checked_at = checked_at;
            status_code = some status;
            duration = now - started;
          })
          [] w' log
      else failed started checked_at status (now - started) (failure_reason status (json response))
          w' log
  after_request started checked_at (err e) w log = raised started checked_at e w log

  unfoldable pub check_once : Exec Watch HealthResult
  check_once s =
      let (started, w1) = monotonic s.world in
      let (checked_at, w2) = utc w1 in
      let (response, w3) = get S.health_url S.timeout_seconds w2 in
      after_request started checked_at response w3 s.log

  module _ (callback : HealthResult → Exec Watch (Unit {0})) where
    -- One round: a check, and what the callback does with its result.
    unfoldable pub round : Exec Watch (Unit {0})
    round = do result ← check_once; callback result

    -- The sleep until the next deadline, if it lies ahead.
    unfoldable pub pause : ℕ → Watch → Watch
    pause next_deadline s =
        let (now, w) = monotonic s.world in record s { world = sleep (next_deadline - now) w }

    -- The loop of `run` with so many rounds left, whose last deadline this is.
    unfoldable pub run_loop : ℕ → ℕ → Exec Watch (Unit {0})
    run_loop zero next_deadline = pure tt
    run_loop (suc zero) next_deadline = round
    run_loop (suc (suc left)) next_deadline = do
      round
      λ s.
          run_loop (suc left) (next_deadline + S.interval_seconds)
            (pause (next_deadline + S.interval_seconds) s)

    -- `run` with a number of iterations. Without one the same rounds go on for ever.
    unfoldable pub run : ℕ → Exec Watch (Unit {0})
    run iterations s =
        let (now, w) = monotonic s.world in run_loop iterations now (record s { world = w })
