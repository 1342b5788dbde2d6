-- ===== src/Controller/Models.antt =====
-- `HealthResult` of models.py. Times and durations are whole ticks; `checked_at` is an opaque text.
use nexguard_sentinel.Prelude.{ℕ, String, Bool, Option}

pub record HealthResult : Type 0 where
  pub is_ok : Bool
  pub reason : String
  pub checked_at : String
  pub status_code : Option ℕ
  pub duration : ℕ
