-- ===== src/Controller/Health/Schedule.antt =====
-- The supervision loop keeps to its deadlines.
use nexguard_sentinel.Prelude.{ℕ, zero, suc, ◌+◌, ◌*◌, ◌-◌, ◌≤◌, ◌≡◌, refl, ◌∙◌, arith}
use nexguard_sentinel.Python.Exec.{Result, ok, err, Exec, continue}
use nexguard_sentinel.Controller.Models.{HealthResult}
use nexguard_sentinel.Controller.Health.{Client, Settings, Watch, round, pause, run_loop, run}

-- The clock of the process: it never goes back, a reading takes no time, and a sleep lasts as long as
-- it is asked to and at most `slack` longer.
pub record IsTimely (C : Client) (slack : ℕ) : Type 0 where
  pub time : C.World → ℕ
  pub reads : (w : C.World) → (C.monotonic w).0 ≡ time w
  pub at_once : (w : C.World) → time (C.monotonic w).1 ≡ time w
  pub sleeps : (d : ℕ) (w : C.World) → time w + d ≤ time (C.sleep d w)
  pub wakes : (d : ℕ) (w : C.World) → time (C.sleep d w) ≤ time w + d + slack

module _ (C : Client) (S : Settings) (slack : ℕ) (T : IsTimely C slack)
    (callback : HealthResult → Exec (Watch C S) (Unit {0})) where
  abbrev W : Type 0
  W = Watch C S

  abbrev round_of : W → Result (Unit {0}) × W
  round_of s = round C S callback s

  -- The deadline that is `i` rounds later, and the state in which that round begins.
  unfoldable pub deadline : ℕ → ℕ → ℕ
  deadline zero d = d
  deadline (suc i) d = deadline i (d + S.interval_seconds)

  unfoldable pub begins : ℕ → ℕ → W → W
  begins zero d s = s
  begins (suc i) d s =
      begins i (d + S.interval_seconds) (pause C S callback (d + S.interval_seconds) (round_of s).1)

  -- The rounds before round `i` return.
  unfoldable pub Return : ℕ → ℕ → W → Type 0
  Return zero d s = Unit
  Return (suc i) d s =
      ((round_of s).0 ≡ ok tt)
      × Return i (d + S.interval_seconds)
          (pause C S callback (d + S.interval_seconds) (round_of s).1)

  -- A round that begins by `slack` after its deadline is over by the next deadline.
  unfoldable pub IsPrompt : Type 0
  IsPrompt =
      (d : ℕ) (s : W)
      → T.time s.world ≤ d + slack
      → T.time (round_of s).1.world ≤ d + S.interval_seconds

  deadline-eq : (i d : ℕ) → deadline i d ≡ d + i * S.interval_seconds
  unfolding deadline
  deadline-eq zero d = grind arith
  deadline-eq (suc i) d = let h = deadline-eq i (d + S.interval_seconds) in grind arith

  pause-time :
      (d : ℕ) (s : W)
      → T.time s.world ≤ d
      → (d ≤ T.time (pause C S callback d s).world)
        × (T.time (pause C S callback d s).world ≤ d + slack)
  unfolding pause
  pause-time d s h =
      let reads = T.reads s.world in
      let at_once = T.at_once s.world in
      let sleeps = T.sleeps (d - (C.monotonic s.world).0) (C.monotonic s.world).1 in
      let wakes = T.wakes (d - (C.monotonic s.world).0) (C.monotonic s.world).1 in
      (omega arith, omega arith)

  begins-time :
      (i d : ℕ) (s : W)
      → IsPrompt
      → d ≤ T.time s.world
      → T.time s.world ≤ d + slack
      → (deadline i d ≤ T.time (begins i d s).world)
        × (T.time (begins i d s).world ≤ deadline i d + slack)
  unfolding deadline begins IsPrompt
  begins-time zero d s prompt late soon = (late, soon)
  begins-time (suc i) d s prompt late soon =
      let p = pause-time (d + S.interval_seconds) (round_of s).1 (prompt d s soon) in
      begins-time i (d + S.interval_seconds) _ prompt p.0 p.1

  abbrev loop : ℕ → ℕ → W → Result (Unit {0}) × W
  loop left d s = run_loop C S callback left d s

  continue-returned :
      (r : Result (Unit {0})) (k : W → Result (Unit {0}) × W) (s : W)
      → r ≡ ok tt
      → continue r (λ _. k) s ≡ k s
  continue-returned (ok _) k s h = refl
  continue-returned (err e) k s h = absurd (ground arith)

  loop-round :
      (left d : ℕ) (s : W)
      → (round_of s).0 ≡ ok tt
      → loop (suc (suc left)) d s
        ≡ loop
            (suc left)
            (d + S.interval_seconds)
            (pause C S callback (d + S.interval_seconds) (round_of s).1)
  unfolding run_loop
  loop-round left d s returned =
      continue-returned (round_of s).0
        (λ t.
          run_loop C S callback (suc left) (d + S.interval_seconds)
            (pause C S callback (d + S.interval_seconds) t))
        (round_of s).1 returned

  loop-begins :
      (i left d : ℕ) (s : W)
      → Return i d s
      → loop (i + suc left) d s ≡ loop (suc left) (deadline i d) (begins i d s)
  unfolding deadline begins Return
  loop-begins zero left d s h = let e : zero + suc left ≡ suc left = omega arith in rw e refl
  loop-begins (suc i) left d s (returned, h) =
      let e : suc i + suc left ≡ suc (suc (i + left)) = omega arith in
      let e' : suc (i + left) ≡ i + suc left = omega arith in
      rw e (
        loop-round (i + left) d s returned
        ∙ rw e' (loop-begins i left (d + S.interval_seconds) _ h))

  abbrev first : W → W
  first s = record s { world = (C.monotonic s.world).1 }

  -- Round `i` of a run that began at `start`, counted from zero.
  pub record Scheduled (i left start : ℕ) (s : W) : Type 0 where
    pub state : W
    -- The run goes on from here, with the rounds that are left.
    pub goes_on :
        run C S callback (i + suc left) s ≡ loop (suc left) (start + i * S.interval_seconds) state
    pub not_early : start + i * S.interval_seconds ≤ T.time state.world
    pub not_late : T.time state.world ≤ start + i * S.interval_seconds + slack

  -- If a round that begins in time is over by the next deadline, the rounds before round `i` return,
  -- and a sleep is at most `slack` too long, then round `i` begins at `i` intervals after the start
  -- of the run and at most `slack` later: what the rounds before took and overslept does not add
  -- up. From there the loop does what a loop with the rounds that are left does.
  pub run-Scheduled :
      (i left : ℕ) (s : W)
      → IsPrompt
      → Return i (T.time s.world) (first s)
      → Scheduled i left (T.time s.world) s
  unfolding run
  run-Scheduled i left s prompt h =
      let reads = T.reads s.world in
      let at_once = T.at_once s.world in
      let eq = deadline-eq i (T.time s.world) in
      let t = begins-time i (T.time s.world) (first s) prompt (omega arith) (omega arith) in
      record {
        state = begins i (T.time s.world) (first s);
        goes_on = rw reads (loop-begins i left (T.time s.world) (first s) h ∙ rw eq refl);
        not_early = rw (← eq) t.0;
        not_late = rw (← eq) t.1;
      }
