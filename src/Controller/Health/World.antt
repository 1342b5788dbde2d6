-- ===== src/Controller/Health/World.antt =====
-- What the monitor keeps of the world: whatever its client's calls and the callback keep.
use nexguard_sentinel.Prelude.{ℕ, zero, suc, ◌+◌, String, List, ◌==◌, nat_eq, Bool-cases, inl, inr}
use nexguard_sentinel.Python.Exec.{Exception, Result, ok, err, Exec}
use nexguard_sentinel.Python.Gives.{Keeps, bind-Keeps, pure-Keeps}
use nexguard_sentinel.Controller.Log.{LogEvent}
use nexguard_sentinel.Controller.Models.{HealthResult}
use nexguard_sentinel.Controller.Health.{
  Client, Settings, Watch, raised, failed, after_request, check_once, round, pause, run_loop, run,
}

-- The calls of the client keep `I`.
pub record Frame (C : Client) (S : Settings) (I : C.World → Type 0) : Type 0 where
  pub gets : (w : C.World) → I w → I (C.get S.health_url S.timeout_seconds w).1
  pub ticks : (w : C.World) → I w → I (C.monotonic w).1
  pub dates : (w : C.World) → I w → I (C.utc w).1
  pub sleeps : (d : ℕ) (w : C.World) → I w → I (C.sleep d w)

module _ (C : Client) (S : Settings) (I : C.World → Type 0) (F : Frame C S I) where
  raised-world :
      (started : ℕ) (checked_at : String) (e : Exception) (w : C.World) (log : List LogEvent)
      → I w
      → I (raised C S started checked_at e w log).1.world
  unfolding raised
  raised-world started checked_at e w log i = elim (Bool-cases (C.is_request_error e)) [
    | inl y ↦ rw y (F.ticks w i)
    | inr n ↦ rw n i
  ]

  failed-world :
      (started : ℕ) (checked_at : String) (status duration : ℕ) (reason : Result String)
      (w : C.World) (log : List LogEvent)
      → I w
      → I (failed C S started checked_at status duration reason w log).1.world
  failed-world started checked_at status duration (err e) w log i =
      raised-world started checked_at e w log i
  failed-world started checked_at status duration (ok reason) w log i = i

  after_request-world :
      (started : ℕ) (checked_at : String) (answer : Result C.Response) (w : C.World)
      (log : List LogEvent)
      → I w
      → I (after_request C S started checked_at answer w log).1.world
  unfolding after_request
  after_request-world started checked_at (err e) w log i = raised-world started checked_at e w log i
  after_request-world started checked_at (ok r) w log i =
      elim (Bool-cases (C.status_code r == 200)) [
        | inl y ↦ rw y (F.ticks w i)
        | inr n ↦ rw n (failed-world started checked_at _ _ _ _ log (F.ticks w i))
      ]

  abbrev pub Inside : Watch C S → Type 0
  Inside s = I s.world

  pub check_once-Keeps : Keeps Inside (check_once C S)
  unfolding check_once
  check_once-Keeps = record {
    keeps = λ s i. after_request-world _ _ _ _ s.log (F.gets _ (F.dates _ (F.ticks s.world i)));
  }

  module _ (callback : HealthResult → Exec (Watch C S) (Unit {0}))
      (kept : (h : HealthResult) → Keeps Inside (callback h)) where
    round-Keeps : Keeps Inside (round C S callback)
    unfolding round
    round-Keeps = bind-Keeps check_once-Keeps kept

    pause-Inside : (d : ℕ) (s : Watch C S) → Inside s → Inside (pause C S callback d s)
    unfolding pause
    pause-Inside d s i = F.sleeps _ _ (F.ticks s.world i)

    run_loop-Keeps : (left d : ℕ) → Keeps Inside (run_loop C S callback left d)
    unfolding run_loop
    run_loop-Keeps zero d = pure-Keeps
    run_loop-Keeps (suc zero) d = round-Keeps
    run_loop-Keeps (suc (suc left)) d = bind-Keeps round-Keeps (λ _. record {
      keeps =
          λ s i. (run_loop-Keeps (suc left) (d + S.interval_seconds)).keeps _ (pause-Inside _ s i);
    })

    pub run-Keeps : (iterations : ℕ) → Keeps Inside (run C S callback iterations)
    unfolding run
    run-Keeps iterations = record {
      keeps = λ s i. (run_loop-Keeps iterations _).keeps _ (F.ticks s.world i);
    }
