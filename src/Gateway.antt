-- ===== src/Gateway.antt =====
-- services/gateway-simulator/app: the schema of the configuration (schemas.py), its loading
-- (config.py) and the answer to a health request (main.py). YAML and pydantic are the parameters of
-- Controller.Config.
pub mod Agreement
mod Tests
use nexguard_sentinel.Prelude.{
  ℕ, String, Bool, true, false, not, ◌||◌, Option, none, some, List, [], ◌∷◌, ◌==◌, string_eq,
  nats_eq, if◌then◌else◌,
}
use nexguard_sentinel.Python.Exec.{
  Exception, Result, ok, err, value_error, unicode_error, library_error, Exec, pure, raise, lift,
  ◌>>=◌, handle, is_value_error,
}
use nexguard_sentinel.Python.Environ.{Environment, get}
use nexguard_sentinel.Python.Pathlib.{file_path}
use nexguard_sentinel.Python.Text.{Text, codes, strip}
use nexguard_sentinel.Disk.{FilePath, Disk}
use nexguard_sentinel.Controller.Config.{
  Schema, string_of, list_of, int_above, model, field, no_field, Libraries, read_text,
  is_yaml_error,
}

-- `SensorConfig`
abbrev pub sensor_config : Schema
sensor_config =
    field "id" (string_of 1)
      (field "type" (string_of 1) (field "unit" (string_of 1) (no_field true)))

-- `GatewayConfig`
abbrev pub gateway_config : Schema
gateway_config = field "id" (string_of 1) (
    field "name" (string_of 1) (
      field "location" (string_of 1) (
        field "sensors" (list_of sensor_config 1)
          (field "reporting_interval_seconds" (int_above 0) (no_field true)))))

-- `GatewayConfigDocument`
abbrev pub gateway_config_document : Schema
gateway_config_document = field "gateway" (model gateway_config) (no_field true)

-- `get_config_path`
unfoldable pub get_config_path : Environment → FilePath
get_config_path env = file_path (get env "GATEWAY_CONFIG_PATH" (codes "/data/gateway/gateway.yaml"))

-- `except (OSError, UnicodeError, ValueError, yaml.YAMLError, ValidationError)`
abbrev pub is_config_error : Exception → Bool
is_config_error (library_error name) = name == "YAMLError" || name == "ValidationError"
is_config_error e = is_value_error e

-- `except ValueError`
abbrev pub is_invalid : Exception → Bool
is_invalid (value_error _) = true
is_invalid unicode_error = true
is_invalid _ = false

-- An answer to a request of the health, with the gauge that it sets.
pub record Answer : Type 0 where
  pub status_code : ℕ
  pub status : String
  pub reason : Option String
  pub config_valid : ℕ

module _ (L : Libraries) where
  open L use {Value, safe_load, is_dict, model_validate}

  abbrev pub validated : Value → List String → Result Value
  validated v [] = ok v
  validated v (e ∷ errors) = err (library_error "ValidationError")

  abbrev pub of_mapping : Result Value → Result Value
  of_mapping (err e) = err e
  of_mapping (ok v) =
      if not (is_dict v)
      then err (value_error "configuration root must be a mapping")
      else validated v (model_validate gateway_config_document v)

  -- From the text to the document, which stands for the value that meets the schema.
  unfoldable pub parse_document : Text → Result Value
  parse_document raw_config =
      if strip raw_config == []
      then err (value_error "configuration is empty")
      else of_mapping (safe_load raw_config)

  unfoldable pub load_config : FilePath → Exec Disk Value
  load_config p =
      handle (read_text L p >>= λ raw_config. lift (parse_document raw_config)) is_config_error
        (λ _. raise (value_error "config_invalid"))

  unfoldable pub config_is_valid : FilePath → Exec Disk Bool
  config_is_valid p = handle (load_config p >>= λ _. pure true) is_invalid (λ _. pure false)

  abbrev pub answer : Bool → Answer
  answer true = record { status_code = 200; status = "healthy"; reason = none; config_valid = 1 }
  answer false = record {
    status_code = 503;
    status = "unhealthy";
    reason = some "config_invalid";
    config_valid = 0;
  }

  unfoldable pub health : FilePath → Exec Disk Answer
  health p = config_is_valid p >>= λ valid. pure (answer valid)
