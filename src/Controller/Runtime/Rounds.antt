-- ===== src/Controller/Runtime/Rounds.antt =====
-- What holds of the runtime over any sequence of health results, newest first.
use nexguard_sentinel.Prelude.{
  ℕ, suc, ◌≤◌, ltb, List, [], ◌∷◌, if◌then◌else◌, ℤ, ◌≡◌, refl, ap, ◌∙◌, arith, none, Bool-cases,
  inl, inr,
}
use nexguard_sentinel.Python.Exec.{ok}
use nexguard_sentinel.Python.Text.{Text}
use nexguard_sentinel.Disk.{Bytes, Disk}
use nexguard_sentinel.Controller.Backup.Create.{Manifest}
use nexguard_sentinel.Controller.Config.{Libraries}
use nexguard_sentinel.Controller.Recovery.{
  Operations, Arguments, Settings, settings_of, HealthResult, RecoveryManager, new_manager,
}
use nexguard_sentinel.Controller.Recovery.Kept.{Fields, fields, start_count}
use nexguard_sentinel.Controller.Recovery.Guards.{is_admitted, attempt_recovery-Refused}
use nexguard_sentinel.Controller.Recovery.Windows.{count_within}
use nexguard_sentinel.Controller.Recovery.Starts.{
  Spaced, Agrees, Agrees-of_fields, refused-Agrees, admitted-Agrees, started-admitted, new-Agrees,
  new_manager-empty,
}
use nexguard_sentinel.Controller.Runtime.{Clock, Runtime, handle_health_result}
use nexguard_sentinel.Controller.Runtime.Touches.{
  Touch, untouched, attempted, handle_health_result-Touch,
}

module _ (O : Operations) (sha256 : Bytes → Text) (S : Settings) where
  abbrev M : Type 0
  M = RecoveryManager O sha256 S

  -- The times of the starts, where `now` is one if the log has gained a start.
  abbrev with_start : ℕ → M → M → List ℕ → List ℕ
  with_start now m m' times =
      if ltb (start_count m.log) (start_count m'.log) then now ∷ times else times

  with_start-same :
      (now : ℕ) (m m' : M) (times : List ℕ)
      → start_count m'.log ≡ start_count m.log
      → with_start now m m' times ≡ times
  with_start-same now m m' times h = ground arith

  with_start-more :
      (now : ℕ) (m m' : M) (times : List ℕ)
      → start_count m'.log ≡ suc (start_count m.log)
      → with_start now m m' times ≡ now ∷ times
  with_start-more now m m' times h = ground arith

  later-Agrees :
      (before now : ℕ) (times : List ℕ) (m : M)
      → before ≤ now
      → Agrees O sha256 S before times m
      → Agrees O sha256 S now times m
  later-Agrees before now times m forward a = record {
    recent = λ later lt. a.recent later (omega arith);
    latest = a.latest;
    bounded = a.bounded;
    spaced = a.spaced;
  }

  Touch-Agrees :
      (before now : ℕ) (times : List ℕ) (m m' : M)
      → before ≤ now
      → Touch O sha256 S now m m'
      → Agrees O sha256 S before times m
      → Agrees O sha256 S now (with_start now m m' times) m'
  Touch-Agrees before now times m m' forward (untouched e) a =
      rw (with_start-same now m m' times (ap (λ (x : M). start_count x.log) e)) (
        Agrees-of_fields O sha256 S now times m m' (ap (fields O sha256 S) e)
          (later-Agrees before now times m forward a))
  Touch-Agrees before now times m m' forward (attempted valid d same) a =
      let e = ap (fields O sha256 S) same in
      let n : M = record m { disk = d } in
      let b = Agrees-of_fields O sha256 S before times m n refl a in
      let started = ap (λ (f : Fields). f.started) e in
      elim (Bool-cases (is_admitted O sha256 S now n)) [
        | inl y ↦
            let more = started-admitted O sha256 S valid now n y in
            rw (with_start-more now m m' times (started ∙ more)) (
              Agrees-of_fields O sha256 S now (now ∷ times) _ m' e
                (admitted-Agrees O sha256 S valid before now times n forward y b))
        | inr f ↦
            let kept = (attempt_recovery-Refused O sha256 S valid now n f).start_count_kept in
            rw (with_start-same now m m' times (started ∙ kept)) (
              Agrees-of_fields O sha256 S now times _ m' e
                (refused-Agrees O sha256 S valid before now times n forward f b))
      ]

  module _ (L : Libraries) (manifest_json : Manifest → Bytes) (backup_interval : ℕ)
      (backup_retention : ℤ) where
    abbrev pub R : Type 0
    R = Runtime O sha256 S L manifest_json backup_interval backup_retention

    -- Health results, newest first, with what the clocks say.
    abbrev pub Rounds : Type 0
    Rounds = List (Clock × HealthResult)

    -- The runtime after it has handled them.
    unfoldable pub after_rounds : R → Rounds → R
    after_rounds r [] = r
    after_rounds r ((t, health) ∷ earlier) =
        (handle_health_result O sha256 S L manifest_json backup_interval backup_retention t health
          (after_rounds r earlier)).1

    -- The times of the results that had a start of a recovery logged, newest first.
    unfoldable pub round_starts : R → Rounds → List ℕ
    round_starts r [] = []
    round_starts r ((t, health) ∷ earlier) =
        with_start t.recovery_monotonic (after_rounds r earlier).recovery
          (after_rounds r ((t, health) ∷ earlier)).recovery (round_starts r earlier)

    abbrev pub latest_time : Rounds → ℕ
    latest_time [] = 0
    latest_time ((t, _) ∷ earlier) = t.recovery_monotonic

    -- The monotonic clock of the recovery does not go back.
    unfoldable pub IsForward : Rounds → Type 0
    IsForward [] = Unit
    IsForward ((t, _) ∷ earlier) = (latest_time earlier ≤ t.recovery_monotonic) × IsForward earlier

    rounds-Agrees :
        (r : R) (rounds : Rounds)
        → r.recovery.attempts ≡ []
        → r.recovery.last_attempt ≡ none
        → IsForward rounds
        → Agrees O sha256 S
            (latest_time rounds)
            (round_starts r rounds)
            (after_rounds r rounds).recovery
    unfolding after_rounds round_starts IsForward
    rounds-Agrees r [] a l forward = new-Agrees O sha256 S r.recovery a l
    rounds-Agrees r ((t, health) ∷ earlier) a l (lt, forward) =
        Touch-Agrees (latest_time earlier) t.recovery_monotonic (round_starts r earlier)
          (after_rounds r earlier).recovery (after_rounds r ((t, health) ∷ earlier)).recovery lt
          (handle_health_result-Touch O sha256 S L manifest_json backup_interval backup_retention t
            health (after_rounds r earlier))
          (rounds-Agrees r earlier a l forward)

module _ (O : Operations) (sha256 : Bytes → Text) (a : Arguments) (L : Libraries)
    (manifest_json : Manifest → Bytes) (backup_interval : ℕ) (backup_retention : ℤ) where
  abbrev S : Settings
  S = settings_of a

  abbrev starts :
      Runtime O sha256 S L manifest_json backup_interval backup_retention
      → Rounds O sha256 S L manifest_json backup_interval backup_retention
      → List ℕ
  starts = round_starts O sha256 S L manifest_json backup_interval backup_retention

  -- A runtime with a new recovery manager handles any sequence of health results, on a clock that
  -- does not go back: whatever the check of the configuration, the backups, the container and the
  -- disk did, the starts of a recovery that were logged are at least the cooldown apart, and no
  -- span of time as long as the window has more of them than the maximum.
  pub round_starts-bounded :
      (disk : Disk) (world : O.World)
      (r : Runtime O sha256 S L manifest_json backup_interval backup_retention)
      (rounds : Rounds O sha256 S L manifest_json backup_interval backup_retention) (t : ℕ)
      → new_manager O sha256 a disk world ≡ ok r.recovery
      → IsForward O sha256 S L manifest_json backup_interval backup_retention rounds
      → Spaced O sha256 S (starts r rounds)
        × (count_within S.recovery_window_seconds t (starts r rounds) ≤ S.max_recoveries_per_window)
  round_starts-bounded disk world r rounds t created forward =
      let (fresh, l) = new_manager-empty O sha256 a disk world r.recovery created in
      let agrees =
        rounds-Agrees O sha256 S L manifest_json backup_interval backup_retention r rounds fresh l
          forward in
      (agrees.spaced, agrees.bounded t)
