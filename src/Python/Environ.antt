-- ===== src/Python/Environ.antt =====
-- `os.environ`, and the conversions of its values that the settings use.
use nexguard_sentinel.Prelude.{String, Option, none, some, ℤ}
use nexguard_sentinel.Python.Exec.{Result, ok, err, value_error}
use nexguard_sentinel.Python.Text.{Text}

-- The environment, by name.
abbrev pub Environment : Type 0
Environment = String → Option Text

-- os.getenv(name, default)
abbrev pub get : Environment → String → Text → Text
get env name default = elim (env name) [ none ↦ default | some t ↦ t ]

-- int(…), which raises ValueError
abbrev pub parsed : Option ℤ → Result ℤ
parsed none = err (value_error "invalid literal for int()")
parsed (some n) = ok n
