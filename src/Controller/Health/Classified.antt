-- ===== src/Controller/Health/Classified.antt =====
-- What the result of a health check says.
use nexguard_sentinel.Prelude.{
  ℕ, String, true, false, Option, none, some, List, ◌∷◌, ◌==◌, nat_eq, ◌≡◌, refl, ap, arith,
  Bool-cases, ◌⊎◌, inl, inr,
}
use nexguard_sentinel.Python.Exec.{Exception, Result, ok, err}
use nexguard_sentinel.Controller.Log.{LogEvent, Value}
use nexguard_sentinel.Controller.Models.{HealthResult}
use nexguard_sentinel.Controller.Health.{
  Client, Settings, Watch, http_reason, is_bad_json, failure_reason, check_event, failed, raised,
  after_request, check_once,
}

module _ (C : Client) (S : Settings) where
  abbrev pub Told : ℕ → Option String → String → Type 0
  Told status none reason = reason ≡ http_reason status
  Told status (some told) reason = reason ≡ told

  abbrev reason_or : ℕ → Option String → Result String
  reason_or status none = ok (http_reason status)
  reason_or status (some reason) = ok reason

  -- The reason that the JSON of a response gives, or else the one that its status gives.
  abbrev pub ReasonOf : ℕ → Result C.Json → String → Type 0
  ReasonOf status (ok payload) reason = Told status (C.reason_of payload) reason
  ReasonOf status (err e) reason = (is_bad_json e ≡ true) × (reason ≡ http_reason status)

  -- The request raises `e`, or the reading of its JSON does.
  abbrev pub Raises : Result C.Response → Exception → Type 0
  Raises answer e = (answer ≡ err e) ⊎ ((r : C.Response) × (answer ≡ ok r) × (C.json r ≡ err e))

  -- What a check that returns `h` says of the request.
  pub data Classified (answer : Result C.Response) (h : HealthResult) : Type 0 where
    healthy :
        (r : C.Response)
        → answer ≡ ok r
        → C.status_code r ≡ 200
        → h.is_ok ≡ true
        → h.status_code ≡ some 200
        → Classified answer h
    unhealthy :
        (r : C.Response)
        → answer ≡ ok r
        → (C.status_code r == 200) ≡ false
        → h.is_ok ≡ false
        → h.status_code ≡ some (C.status_code r)
        → ReasonOf (C.status_code r) (C.json r) h.reason
        → Classified answer h
    unreachable :
        (e : Exception)
        → Raises answer e
        → C.is_request_error e ≡ true
        → h.is_ok ≡ false
        → h.reason ≡ "network_error"
        → h.status_code ≡ none
        → Classified answer h

  -- The answer of the request that a check makes.
  abbrev pub requested : C.World → Result C.Response
  requested w = (C.get S.health_url S.timeout_seconds (C.utc (C.monotonic w).1).1).0

  -- A result is classified, and logged once; a check that raises logs nothing.
  abbrev Settled : Result C.Response → List LogEvent → Result HealthResult × Watch C S → Type 0
  Settled answer log (err e, s) = s.log ≡ log
  Settled answer log (ok h, s) =
      Classified answer h
      × ((error : List (String × Value)) × (s.log ≡ check_event C S h error ∷ log))

  Told-of_reason_or :
      (status : ℕ) (o : Option String) (reason : String)
      → reason_or status o ≡ ok reason
      → Told status o reason
  Told-of_reason_or status none reason h = ground arith
  Told-of_reason_or status (some told) reason h = ground arith

  reason_or-returns :
      (status : ℕ) (o : Option String) (e : Exception) → reason_or status o ≡ err e → ⊥
  reason_or-returns status none e h = cc
  reason_or-returns status (some told) e h = cc

  failure_reason-ReasonOf :
      (status : ℕ) (json : Result C.Json) (reason : String)
      → failure_reason C S status json ≡ ok reason
      → ReasonOf status json reason
  unfolding failure_reason
  failure_reason-ReasonOf status (ok payload) reason h =
      Told-of_reason_or status (C.reason_of payload) reason h
  failure_reason-ReasonOf status (err e) reason h = ground arith

  failure_reason-raises :
      (status : ℕ) (json : Result C.Json) (e : Exception)
      → failure_reason C S status json ≡ err e
      → json ≡ err e
  unfolding failure_reason
  failure_reason-raises status (ok payload) e h =
      absurd (reason_or-returns status (C.reason_of payload) e h)
  failure_reason-raises status (err d) e h = ground arith

  raised-Settled :
      (started : ℕ) (checked_at : String) (answer : Result C.Response) (e : Exception) (w : C.World)
      (log : List LogEvent)
      → Raises answer e
      → Settled answer log (raised C S started checked_at e w log)
  unfolding raised
  raised-Settled started checked_at answer e w log h = elim (Bool-cases (C.is_request_error e)) [
    | inl y ↦ rw y (unreachable e h y refl refl refl, (_, refl))
    | inr n ↦ rw n refl
  ]

  failed-Settled :
      (r : C.Response) (started : ℕ) (checked_at : String) (duration : ℕ) (reason : Result String)
      (w : C.World) (log : List LogEvent)
      → (C.status_code r == 200) ≡ false
      → failure_reason C S (C.status_code r) (C.json r) ≡ reason
      → Settled (ok r) log (failed C S started checked_at (C.status_code r) duration reason w log)
  failed-Settled r started checked_at duration (err e) w log n h =
      raised-Settled started checked_at (ok r) e w log
        (inr (r, refl, failure_reason-raises (C.status_code r) (C.json r) e h))
  failed-Settled r started checked_at duration (ok reason) w log n h = (
    unhealthy r refl n refl refl (failure_reason-ReasonOf (C.status_code r) (C.json r) reason h),
    (_, refl),
  )

  after_request-Settled :
      (started : ℕ) (checked_at : String) (answer : Result C.Response) (w : C.World)
      (log : List LogEvent)
      → Settled answer log (after_request C S started checked_at answer w log)
  unfolding after_request
  after_request-Settled started checked_at (err e) w log =
      raised-Settled started checked_at (err e) e w log (inl refl)
  after_request-Settled started checked_at (ok r) w log =
      elim (Bool-cases (C.status_code r == 200)) [
        | inl y ↦
            let e : C.status_code r ≡ 200 = ground arith in
            rw y (healthy r refl e refl (ap some e), (_, refl))
        | inr n ↦ rw n (failed-Settled r started checked_at _ _ _ log n refl)
      ]

  check_once-Settled : (s : Watch C S) → Settled (requested s.world) s.log (check_once C S s)
  unfolding check_once
  check_once-Settled s = after_request-Settled _ _ _ _ s.log

  Settled-returned :
      (answer : Result C.Response) (log : List LogEvent) (r : Result HealthResult) (t : Watch C S)
      (h : HealthResult)
      → Settled answer log (r, t)
      → r ≡ ok h
      → Classified answer h
        × ((error : List (String × Value)) × (t.log ≡ check_event C S h error ∷ log))
  Settled-returned answer log (err e) t h k x = cc
  Settled-returned answer log (ok g) t h k x = let e : g ≡ h = ground arith in rw (← e) k

  -- A check that returns a result says what came of its request: a response with status 200 is ok,
  -- any other is not and has the reason that its JSON gives or else that of its status, and a request
  -- error, from the request or from reading its JSON, is a network error with no status. The result
  -- is logged once.
  pub check_once-Classified :
      (s : Watch C S) (h : HealthResult)
      → (check_once C S s).0 ≡ ok h
      → Classified (requested s.world) h
        × ((error : List (String × Value)) × ((check_once C S s).1.log
              ≡ check_event C S h error ∷ s.log))
  check_once-Classified s h x =
      Settled-returned (requested s.world) s.log (check_once C S s).0 (check_once C S s).1 h
        (check_once-Settled s) x
