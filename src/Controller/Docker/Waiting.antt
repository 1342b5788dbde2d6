-- ===== src/Controller/Docker/Waiting.antt =====
-- `wait_for_running` ends, and says whether the container was seen running.
use nexguard_sentinel.Prelude.{
  ℕ, zero, suc, ◌+◌, ◌-◌, ◌≤◌, ◌<◌, min, Bool, true, false, Option, some, ◌==◌, string_eq, leb, ◌≡◌,
  refl, arith, Bool-cases, inl, inr, pos,
}
use nexguard_sentinel.Python.Exec.{Exception, Result, ok, err}
use nexguard_sentinel.Python.Text.{Text}
use nexguard_sentinel.Controller.Docker.{Client, IsTimely, poll, poll_from, wait_for_running}

positive_interval : (interval : ℕ) → 0 < interval → leb interval 0 ≡ false
positive_interval interval h = ground arith

module _ (C : Client) (T : IsTimely C) (interval deadline : ℕ) (tick : 0 < interval) where
  -- What a poll may return, at the world that it leaves.
  pub data Polled (r : Result (Option Bool)) (w : C.World) : Type 0 where
    running :
        (c : C.Container) (v : C.World)
        → (C.reload c v).1 ≡ w
        → (c' : C.Container) → (C.reload c v).0 ≡ ok c'
        → C.status c' ≡ "running"
        → r ≡ ok (some true)
        → Polled r w
    late : deadline ≤ T.time w → r ≡ ok (some false) → Polled r w
    raised :
        (x : Exception) (c : C.Container) (v : C.World)
        → (C.reload c v).0 ≡ err x
        → (C.reload c v).1 ≡ w
        → r ≡ err x
        → Polled r w

  -- One round, given what the later rounds return.
  poll_round-Polled :
      (fuel : ℕ) (c : C.Container) (w : C.World) (r : Result C.Container)
      → ((c' : C.Container) (v : C.World)
          → deadline < T.time v + fuel
          → 0 < fuel
          → Polled (poll C fuel interval deadline c' v).0 (poll C fuel interval deadline c' v).1)
      → (C.reload c w).0 ≡ r
      → deadline < T.time w + suc fuel
      → Polled
          (poll C (suc fuel) interval deadline c w).0
          (poll C (suc fuel) interval deadline c w).1
  unfolding poll
  poll_round-Polled fuel c w (err x) later e room = rw (e, poll) (raised x c w e refl refl)
  poll_round-Polled fuel c w (ok c') later e room =
      rw (e, poll)
        (elim (Bool-cases (C.status c' == "running")) [
          | inl up ↦ rw up (running c w refl c' e (ground arith) refl)
          | inr down ↦ rw down (elim (Bool-cases (leb deadline (C.monotonic (C.reload c w).1).0)) [
            | inl over ↦ rw over (late (ground (arith, T.reads (C.reload c w).1)) refl)
            | inr early ↦ rw early (
                later c' _
                  (ground (
                    arith,
                    T.reads (C.reload c w).1,
                    T.forward (C.reload c w).1,
                    T.reload_forward c w,
                    T.sleeps (min interval (deadline - (C.monotonic (C.reload c w).1).0))
                        (C.monotonic (C.reload c w).1).1,
                  ))
                  (ground (
                    arith,
                    T.reads (C.reload c w).1,
                    T.forward (C.reload c w).1,
                    T.reload_forward c w,
                  )))
          ])
        ])

  poll-Polled :
      (fuel : ℕ) (c : C.Container) (w : C.World)
      → deadline < T.time w + fuel
      → 0 < fuel
      → Polled (poll C fuel interval deadline c w).0 (poll C fuel interval deadline c w).1
  poll-Polled zero c w room some_fuel = absurd (omega arith)
  poll-Polled (suc fuel) c w room some_fuel =
      poll_round-Polled fuel c w (C.reload c w).0 (poll-Polled fuel) refl room

-- With a timeout of no less than zero and an interval above zero, `wait_for_running` on a container
-- that the client finds never runs out of fuel: it returns True where it has just read the status
-- `running`, it returns False where the clock has reached the deadline, and it raises only what the
-- client's reload of the container has just raised.
pub wait_for_running-Polled :
    (C : Client) (T : IsTimely C) (name : Text) (timeout interval : ℕ) (tick : 0 < interval)
    (w : C.World) (c : C.Container)
    → (C.get name w).0 ≡ ok c
    → Polled C T interval
        ((C.monotonic (C.get name w).1).0 + timeout)
        tick
        (wait_for_running C name (pos timeout) (pos interval) w).0
        (wait_for_running C name (pos timeout) (pos interval) w).1
unfolding wait_for_running poll_from
wait_for_running-Polled C T name timeout interval tick w c e =
    rw (positive_interval interval tick, e)
      (poll-Polled C T interval _ tick (timeout + 1) c (C.monotonic (C.get name w).1).1
        (let now = T.reads (C.get name w).1 in omega arith) (omega arith))
