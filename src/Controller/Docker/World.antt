-- ===== src/Controller/Docker/World.antt =====
-- What the Docker operations keep of the world: whatever the client's calls keep. A restart is asked
-- to keep it only where it is allowed.
use nexguard_sentinel.Prelude.{
  ℕ, zero, suc, ◌+◌, true, some, List, leb, ◌==◌, string_eq, nats_eq, contains, pos, ◌≡◌, refl,
  arith, Bool-cases, inl, inr,
}
use nexguard_sentinel.Python.Exec.{Result, ok, err, continue}
use nexguard_sentinel.Python.Text.{Text}
use nexguard_sentinel.Controller.Docker.{
  Client, Station, clean_names, security_block, restart_managed, restart_container, is_managed,
  poll, poll_from, wait_for_running,
}

-- The calls on the container of this name keep `I`: a restart of it, with a timeout of 10, if its name
-- is on the list and it has the managed label.
pub record Frame (C : Client) (allowed : List Text) (name : Text) (I : C.World → Type 0)
    : Type 0 where
  pub gets : (w : C.World) → I w → I (C.get name w).1
  pub restarts :
      contains (clean_names allowed) name ≡ true
      → (w : C.World) (c : C.Container) → (C.get name w).0 ≡ ok c
      → C.label c "io.nexguard.managed" ≡ some "true"
      → I w
      → I (C.restart c 10 (C.get name w).1).1
  pub reloads : (c : C.Container) (w : C.World) → I w → I (C.reload c w).1
  pub ticks : (w : C.World) → I w → I (C.monotonic w).1
  pub sleeps : (d : ℕ) (w : C.World) → I w → I (C.sleep d w)

module _ (C : Client) (allowed : List Text) (name : Text) (I : C.World → Type 0)
    (F : Frame C allowed name I) where
  restart_managed-world :
      (found : Result C.Container) (s : Station C)
      → contains (clean_names allowed) name ≡ true
      → (C.get name s.world).0 ≡ found
      → I s.world
      → I
          (continue found
            (restart_managed C name)
            (record s { world = (C.get name s.world).1 })).1.world
  unfolding restart_managed security_block
  restart_managed-world (err e) s listed h i = F.gets s.world i
  restart_managed-world (ok c) s listed h i = elim (Bool-cases (is_managed C c)) [
    | inl y ↦ rw y (F.restarts listed s.world c h (ground arith) i)
    | inr n ↦ rw n (F.gets s.world i)
  ]

  pub restart_container-world :
      (s : Station C) → I s.world → I (restart_container C allowed name s).1.world
  unfolding restart_container security_block
  restart_container-world s i = elim (Bool-cases (contains (clean_names allowed) name)) [
    | inl y ↦ rw y (restart_managed-world _ s y refl i)
    | inr n ↦ rw n i
  ]

  module _ (interval deadline : ℕ) where
    poll_round-world :
        (fuel : ℕ) (c : C.Container) (w : C.World) (r : Result C.Container)
        → ((c' : C.Container) (v : C.World) → I v → I (poll C fuel interval deadline c' v).1)
        → (C.reload c w).0 ≡ r
        → I w
        → I (poll C (suc fuel) interval deadline c w).1
    unfolding poll
    poll_round-world fuel c w (err x) later e i = rw (e, poll) (F.reloads c w i)
    poll_round-world fuel c w (ok c') later e i =
        rw (e, poll)
          (let loaded = F.reloads c w i in
            let timed = F.ticks (C.reload c w).1 loaded in
            elim (Bool-cases (C.status c' == "running")) [
              | inl up ↦ rw up loaded
              | inr down ↦
                  rw down (elim (Bool-cases (leb deadline (C.monotonic (C.reload c w).1).0)) [
                    | inl over ↦ rw over timed
                    | inr early ↦ rw early (later c' _ (F.sleeps _ _ timed))
                  ])
            ])

    poll-world :
        (fuel : ℕ) (c : C.Container) (w : C.World) → I w → I (poll C fuel interval deadline c w).1
    unfolding poll
    poll-world zero c w i = i
    poll-world (suc fuel) c w i =
        poll_round-world fuel c w (C.reload c w).0 (poll-world fuel) refl i

  poll_from-world :
      (timeout interval : ℕ) (found : Result C.Container) (w : C.World)
      → I w
      → I (continue found (poll_from C timeout interval) w).1
  unfolding poll_from
  poll_from-world timeout interval (err e) w i = i
  poll_from-world timeout interval (ok c) w i =
      poll-world interval _ (timeout + 1) c _ (F.ticks w i)

  pub wait_for_running-world :
      (timeout interval : ℕ) (w : C.World)
      → I w
      → I (wait_for_running C name (pos timeout) (pos interval) w).1
  unfolding wait_for_running
  wait_for_running-world timeout interval w i = elim (Bool-cases (leb interval 0)) [
    | inl y ↦ rw y i
    | inr n ↦ rw n (poll_from-world timeout interval _ _ (F.gets w i))
  ]
