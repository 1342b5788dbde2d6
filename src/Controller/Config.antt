-- ===== src/Controller/Config.antt =====
-- config_checker.py. YAML, pydantic and the UTF-8 decoder are parameters: a schema is the data that a
-- pydantic model declares, and validation gives the types of its errors.
pub mod Checked
use nexguard_sentinel.Prelude.{
  ℕ, String, Bool, true, false, not, ◌||◌, Option, none, some, List, [], ◌∷◌, ◌==◌, string_eq,
  nats_eq, if◌then◌else◌,
}
use nexguard_sentinel.Python.Exec.{
  Exception, Result, ok, err, library_error, file_not_found_error, Exec, pure, lift, ◌>>=◌, handle,
  is_read_error,
}
use nexguard_sentinel.Python.Text.{Text, strip}
use nexguard_sentinel.Disk.{Bytes, FilePath, File, Disk, read_file}
use nexguard_sentinel.Controller.Backup.{decoded, is_missing}

mutual
  -- What a field must be.
  pub data Kind : Type 0 where
    -- str = Field(min_length=n)
    string_of : (min_length : ℕ) → Kind
    -- list[model] = Field(min_length=n)
    list_of : Schema → (min_length : ℕ) → Kind
    -- int = Field(gt=n)
    int_above : ℕ → Kind
    model : Schema → Kind

  -- A model: whether it is strict, and its fields, all of them required.
  pub data Schema : Type 0 where
    no_field : (is_strict : Bool) → Schema
    field : String → Kind → Schema → Schema

-- `_SensorConfig`
abbrev pub sensor_config : Schema
sensor_config =
    field "id" (string_of 1)
      (field "type" (string_of 1) (field "unit" (string_of 1) (no_field true)))

-- `_GatewayConfig`
abbrev pub gateway_config : Schema
gateway_config = field "id" (string_of 1) (
    field "name" (string_of 1) (
      field "location" (string_of 1) (
        field "sensors" (list_of sensor_config 1)
          (field "reporting_interval_seconds" (int_above 0) (no_field true)))))

-- `_GatewayDocument`
abbrev pub gateway_document : Schema
gateway_document = field "gateway" (model gateway_config) (no_field true)

-- yaml, and pydantic's `model_validate` with the types of the errors that it finds.
pub record Libraries : Type 1 where
  pub Value : Type 0
  pub safe_load : Text → Result Value
  pub is_dict : Value → Bool
  pub model_validate : Schema → Value → List String
  -- contents.decode("utf-8")
  pub utf8 : Bytes → Option Text

-- `except yaml.YAMLError`
abbrev pub is_yaml_error : Exception → Bool
is_yaml_error (library_error name) = name == "YAMLError"
is_yaml_error _ = false

unfoldable pub has_missing : List String → Bool
has_missing [] = false
has_missing (e ∷ errors) = (e == "missing") || has_missing errors

module _ (L : Libraries) where
  open L use {Value, safe_load, is_dict, model_validate, utf8}

  -- What a parse gives: the value, or the reason that there is none.
  pub data Parsed : Type 0 where
    value : Value → Parsed
    no_value : String → Parsed

  abbrev pub loaded : Result Value → Result Parsed
  loaded (ok v) = ok (value v)
  loaded (err e) = if is_yaml_error e then ok (no_value "yaml_parse_error") else err e

  -- `_parse_yaml`
  unfoldable pub parse_yaml : Text → Result Parsed
  parse_yaml contents =
      if strip contents == [] then ok (no_value "empty_config") else loaded (safe_load contents)

  abbrev pub verdict : List String → Bool × String
  verdict [] = (true, "ok")
  verdict (e ∷ errors) = (
    false,
    if has_missing (e ∷ errors) then "missing_required_key" else "schema_validation_error",
  )

  -- `validate_schema`
  unfoldable pub validate_schema : Value → Bool × String
  validate_schema v = verdict (model_validate gateway_document v)

  abbrev pub check_parsed : Result Parsed → Result (Bool × String)
  check_parsed (err e) = err e
  check_parsed (ok (no_value reason)) = ok (false, reason)
  check_parsed (ok (value v)) = ok (validate_schema v)

  -- `check_config_text`
  unfoldable pub check_config_text : Text → Result (Bool × String)
  check_config_text contents = check_parsed (parse_yaml contents)

  abbrev pub check_mapping : Result Parsed → Result (Bool × String)
  check_mapping (err e) = err e
  check_mapping (ok (no_value reason)) = ok (false, reason)
  check_mapping (ok (value v)) =
      ok (if not (is_dict v) then (false, "schema_validation_error") else (true, "ok"))

  -- path.read_text(encoding="utf-8")
  abbrev pub read_text : FilePath → Exec Disk Text
  read_text p = do file ← read_file p; lift (decoded (utf8 file.contents))

  -- The text of the file, or the reason that there is none.
  pub data Source : Type 0 where
    contents : Text → Source
    unread : String → Source

  unfoldable pub read_source : FilePath → Exec Disk Source
  read_source p =
      handle (read_text p >>= λ t. pure (contents t)) is_read_error
        (λ e. pure (unread (if is_missing e then "file_not_found" else "read_error")))

  abbrev pub on_text : (Text → Result (Bool × String)) → Source → Exec Disk (Bool × String)
  on_text check (contents t) = lift (check t)
  on_text check (unread reason) = pure (false, reason)

  -- `check_config`
  unfoldable pub check_config : FilePath → Exec Disk (Bool × String)
  check_config p = read_source p >>= on_text check_config_text

  -- `is_valid_yaml`
  unfoldable pub is_valid_yaml : FilePath → Exec Disk (Bool × String)
  is_valid_yaml p = read_source p >>= on_text (λ t. check_mapping (parse_yaml t))
