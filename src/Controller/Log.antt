-- ===== src/Controller/Log.antt =====
-- The structured events that the controller hands to its loggers (`EventLogger`), without the time.
use nexguard_sentinel.Prelude.{ℕ, String, Bool, List}
use nexguard_sentinel.Python.Exec.{Exception}
use nexguard_sentinel.Python.Text.{Text}

pub data Value : Type 0 where
  text : String → Value
  -- a path or a name
  path_text : Text → Value
  -- str(exc), and type(exc).__name__
  error_text error_name : Exception → Value
  number : ℕ → Value
  flag : Bool → Value
  null : Value

pub record LogEvent : Type 0 where
  pub event_type : String
  pub level : String
  pub message : String
  pub context : List (String × Value)
