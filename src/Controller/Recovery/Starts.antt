-- ===== src/Controller/Recovery/Starts.antt =====
-- What one attempt does to the starts that the manager's fields stand for.
use nexguard_sentinel.Prelude.{
  ℕ, ◌+◌, ◌≤◌, Bool, true, false, Option, none, some, List, [], ◌∷◌, ◌++◌, ◌≡◌, ap, ◌∙◌, arith, suc,
  string_eq,
}
use nexguard_sentinel.Python.Exec.{Result, ok}
use nexguard_sentinel.Disk.{Bytes, Disk}
use nexguard_sentinel.Controller.Recovery.{
  Operations, Arguments, Settings, settings_of, RecoveryManager, RecoveryResult, is_cooling,
  new_manager, begin, attempt_recovery,
}
use nexguard_sentinel.Controller.Recovery.Kept.{Fields, fields, start_count, recover-fields}
use nexguard_sentinel.Controller.Recovery.Windows.{
  count_within, count_recent, count_recent-append, count_recent-length, count_recent-expire,
  count_within-recent,
}
use nexguard_sentinel.Controller.Recovery.Guards.{
  is_admitted, expired, attempt_recovery-Refused, attempt_recovery-admitted,
}

module _ (O : Operations) (sha256 : Bytes → List ℕ) (S : Settings) where
  abbrev M : Type 0
  M = RecoveryManager O sha256 S

  abbrev after_attempt : Bool → ℕ → M → M
  after_attempt valid now m = (attempt_recovery O sha256 S valid now m).1

  pub after_attempt-admitted :
      (valid : Bool) (now : ℕ) (m : M)
      → is_admitted O sha256 S now m ≡ true
      → ((after_attempt valid now m).attempts ≡ expired O sha256 S now m ++ now ∷ [])
        × ((after_attempt valid now m).last_attempt ≡ some now)
  after_attempt-admitted valid now m h =
      let e = attempt_recovery-admitted O sha256 S valid now m h in
      let kept =
        recover-fields O sha256 S valid
          (begin O sha256 S now (record m { attempts = expired O sha256 S now m })) in
      (
        ap (λ (r : Result (Option RecoveryResult) × M). r.1.attempts) e
            ∙ ap (λ (f : Fields). f.attempts) kept,
        ap (λ (r : Result (Option RecoveryResult) × M). r.1.last_attempt) e
            ∙ ap (λ (f : Fields). f.last_attempt) kept,
      )

  abbrev first : List ℕ → Option ℕ
  first [] = none
  first (a ∷ times) = some a

  -- Each time is at least the cooldown after the one before it.
  unfoldable pub Spaced : List ℕ → Type 0
  Spaced [] = Unit
  Spaced (now ∷ []) = Unit
  Spaced (now ∷ before ∷ times) = (before + S.cooldown_seconds ≤ now) × Spaced (before ∷ times)

  -- What the manager's fields say of the starts, at `now` and later.
  pub record Agrees (now : ℕ) (times : List ℕ) (m : M) : Type 0 where
    pub recent :
        (later : ℕ)
        → now ≤ later
        → count_recent S.recovery_window_seconds later times
          ≤ count_recent S.recovery_window_seconds later m.attempts
    pub latest : m.last_attempt ≡ first times
    pub bounded :
        (t : ℕ) → count_within S.recovery_window_seconds t times ≤ S.max_recoveries_per_window
    pub spaced : Spaced times

  pub refused-Agrees :
      (valid : Bool) (before now : ℕ) (times : List ℕ) (m : M)
      → before ≤ now
      → is_admitted O sha256 S now m ≡ false
      → Agrees before times m
      → Agrees now times (after_attempt valid now m)
  refused-Agrees valid before now times m forward h a =
      let refused = attempt_recovery-Refused O sha256 S valid now m h in
      record {
        recent = λ later lt. simp refused.attempts_expired (
            let x = a.recent later (omega arith) in
            let y = count_recent-expire S.recovery_window_seconds now later m.attempts lt in
            omega arith);
        latest = refused.latest_kept ∙ a.latest;
        bounded = a.bounded;
        spaced = a.spaced;
      }

  Spaced-next :
      (now : ℕ) (times : List ℕ) (m : M)
      → is_admitted O sha256 S now m ≡ true
      → m.last_attempt ≡ first times
      → Spaced times
      → Spaced (now ∷ times)
  unfolding Spaced is_cooling
  Spaced-next now [] m h l s = tt
  Spaced-next now (a ∷ times) m h l s = (ground arith, s)

  bounded-next :
      (before now t : ℕ) (times : List ℕ) (m : M)
      → before ≤ now
      → is_admitted O sha256 S now m ≡ true
      → Agrees before times m
      → count_within S.recovery_window_seconds t (now ∷ times) ≤ S.max_recoveries_per_window
  unfolding count_within
  bounded-next before now t times m forward h a =
      let x = a.bounded t in
      let r = a.recent now forward in
      let y = count_recent-expire S.recovery_window_seconds now now m.attempts (omega arith) in
      let z = count_recent-length S.recovery_window_seconds now (expired O sha256 S now m) in
      ground (arith, count_within-recent S.recovery_window_seconds t now times)

  pub admitted-Agrees :
      (valid : Bool) (before now : ℕ) (times : List ℕ) (m : M)
      → before ≤ now
      → is_admitted O sha256 S now m ≡ true
      → Agrees before times m
      → Agrees now (now ∷ times) (after_attempt valid now m)
  unfolding count_recent
  admitted-Agrees valid before now times m forward h a =
      let (e, l) = after_attempt-admitted valid now m h in
      record {
        recent = λ later lt. simp e (
            let x = a.recent later (omega arith) in
            let y = count_recent-expire S.recovery_window_seconds now later m.attempts lt in
            let z =
              count_recent-append S.recovery_window_seconds later now (expired O sha256 S now m) in
            ground arith);
        latest = l;
        bounded = λ t. bounded-next before now t times m forward h a;
        spaced = Spaced-next now times m h a.latest a.spaced;
      }

  -- It depends on nothing else.
  pub Agrees-of_fields :
      (now : ℕ) (times : List ℕ) (m m' : M)
      → fields O sha256 S m' ≡ fields O sha256 S m
      → Agrees now times m
      → Agrees now times m'
  Agrees-of_fields now times m m' e a =
      let attempts : m'.attempts ≡ m.attempts = ap (λ (f : Fields). f.attempts) e in
      record {
        recent = λ later lt. simp attempts (a.recent later lt);
        latest = ap (λ (f : Fields). f.last_attempt) e ∙ a.latest;
        bounded = a.bounded;
        spaced = a.spaced;
      }

  -- An admitted attempt logs one start.
  pub started-admitted :
      (valid : Bool) (now : ℕ) (m : M)
      → is_admitted O sha256 S now m ≡ true
      → start_count (after_attempt valid now m).log ≡ suc (start_count m.log)
  unfolding string_eq
  started-admitted valid now m h =
      let e = attempt_recovery-admitted O sha256 S valid now m h in
      let kept =
        recover-fields O sha256 S valid
          (begin O sha256 S now (record m { attempts = expired O sha256 S now m })) in
      ap (λ (r : Result (Option RecoveryResult) × M). start_count r.1.log) e
      ∙ ap (λ (f : Fields). f.started) kept

  pub new-Agrees : (m : M) → m.attempts ≡ [] → m.last_attempt ≡ none → Agrees 0 [] m
  unfolding count_recent count_within Spaced
  new-Agrees m a l = record {
    recent = λ later lt. ground arith;
    latest = l;
    bounded = λ t. ground arith;
    spaced = tt;
  }

pub new_manager-empty :
    (O : Operations) (sha256 : Bytes → List ℕ) (a : Arguments) (disk : Disk) (world : O.World)
    (m : RecoveryManager O sha256 (settings_of a))
    → new_manager O sha256 a disk world ≡ ok m
    → (m.attempts ≡ []) × (m.last_attempt ≡ none)
unfolding new_manager
new_manager-empty O sha256 a disk world m h = ground arith
