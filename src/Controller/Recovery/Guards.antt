-- ===== src/Controller/Recovery/Guards.antt =====
-- The guards of `attempt_recovery`.
use nexguard_sentinel.Prelude.{
  ℕ, String, Bool, true, false, not, ◌&&◌, Option, List, ltb, leb, length, ◌≡◌, refl, arith,
  string_eq, Bool-cases, inl, inr,
}
use nexguard_sentinel.Python.Exec.{Result}
use nexguard_sentinel.Disk.{Bytes}
use nexguard_sentinel.Controller.Recovery.Kept.{start_count}
use nexguard_sentinel.Controller.Recovery.{
  Operations, Settings, RecoveryManager, RecoveryResult, is_manual, expire, is_cooling, recover,
  begin, give_up, guarded, attempt_recovery,
}

module _ (O : Operations) (sha256 : Bytes → List ℕ) (S : Settings) where
  abbrev M : Type 0
  M = RecoveryManager O sha256 S

  -- The three guards.
  abbrev pub is_admitted : ℕ → M → Bool
  is_admitted now m =
      not (is_manual m.status)
      && ltb (length (expire S.recovery_window_seconds now m.attempts)) S.max_recoveries_per_window
      && not (is_cooling S.cooldown_seconds now m.last_attempt)

  abbrev pub expired : ℕ → M → List ℕ
  expired now m = expire S.recovery_window_seconds now m.attempts

  -- A refused attempt gives up, and has removed the old attempts.
  pub record Refused (now : ℕ) (m : M) (r : Result (Option RecoveryResult) × M) : Type 0 where
    pub reason : String
    pub gives_up : r ≡ give_up O sha256 S reason false r.1
    pub attempts_expired : r.1.attempts ≡ expired now m
    pub latest_kept : r.1.last_attempt ≡ m.last_attempt
    pub disk_kept : r.1.disk ≡ m.disk
    pub world_kept : r.1.world ≡ m.world
    pub start_count_kept : start_count r.1.log ≡ start_count m.log

  pub attempt_recovery-Refused :
      (valid : Bool) (now : ℕ) (m : M)
      → is_admitted now m ≡ false
      → Refused now m (attempt_recovery O sha256 S valid now m)
  unfolding attempt_recovery guarded string_eq
  attempt_recovery-Refused valid now m h = elim (Bool-cases (is_manual m.status)) [
    | inl t ↦ rw t (gave_up refl refl refl refl refl refl)
    | inr f ↦ rw f (elim (Bool-cases (leb S.max_recoveries_per_window (length (expired now m)))) [
      | inl full ↦ rw full (gave_up refl refl refl refl refl refl)
      | inr room ↦ rw room (elim (Bool-cases (is_cooling S.cooldown_seconds now m.last_attempt)) [
        | inl cooling ↦ rw cooling (gave_up refl refl refl refl refl refl)
        | inr cool ↦ absurd (ground arith)
      ])
    ])
  ]
    where
      gave_up :
          {reason : String} {r : Result (Option RecoveryResult) × M}
          → r ≡ give_up O sha256 S reason false r.1
          → r.1.attempts ≡ expired now m
          → r.1.last_attempt ≡ m.last_attempt
          → r.1.disk ≡ m.disk
          → r.1.world ≡ m.world
          → start_count r.1.log ≡ start_count m.log
          → Refused now m r
      gave_up {reason = reason} g a l d w c = record {
        reason = reason;
        gives_up = g;
        attempts_expired = a;
        latest_kept = l;
        disk_kept = d;
        world_kept = w;
        start_count_kept = c;
      }

  -- An admitted attempt is the one that recovers.
  pub attempt_recovery-admitted :
      (valid : Bool) (now : ℕ) (m : M)
      → is_admitted now m ≡ true
      → attempt_recovery O sha256 S valid now m
        ≡ recover O sha256 S valid (begin O sha256 S now (record m { attempts = expired now m }))
  unfolding attempt_recovery guarded
  attempt_recovery-admitted valid now m h = ground arith
