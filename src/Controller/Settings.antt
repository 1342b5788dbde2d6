-- ===== src/Controller/Settings.antt =====
-- `Settings` of main.py and its `from_env`. The type of the floats and `float` are parameters; the
-- set of the allowed containers is the list of its names, perhaps with repetitions.
pub mod Allowed
use nexguard_sentinel.Prelude.{String, List, ℤ}
use nexguard_sentinel.Python.Exec.{Result, ok}
use nexguard_sentinel.Python.Outcome.{◌>>=◌}
use nexguard_sentinel.Python.Environ.{Environment, get, parsed}
use nexguard_sentinel.Python.Text.{Text, codes}
use nexguard_sentinel.Python.Words.{split}
use nexguard_sentinel.Python.Pathlib.{file_path, dir_path}
use nexguard_sentinel.Python.Number.{int}
use nexguard_sentinel.Disk.{FilePath}
use nexguard_sentinel.Controller.Docker.{clean_names}

pub record Settings (Float : Type 0) : Type 0 where
  pub gateway_health_url : Text
  pub health_interval : Float
  pub failure_threshold : ℤ
  pub config_path : FilePath
  pub backup_dir : Text
  pub backup_interval : Float
  pub backup_retention_count : ℤ
  pub allowed_containers : List Text
  pub container_name : Text
  pub recovery_cooldown : Float
  pub max_recoveries : ℤ
  pub recovery_window : Float
  pub restart_wait : Float

-- ….split(",")
abbrev pub listed_names : Environment → List Text
listed_names env = split b',' (get env "NEXGUARD_ALLOWED_CONTAINERS" (codes "gateway-simulator"))

-- {item.strip() for item in ….split(",") if item.strip()}, which is the comprehension of
-- `DockerManager` on the parts
unfoldable pub allowed_names : Environment → List Text
allowed_names env = clean_names (listed_names env)

-- `_env_int`, whose default is the text of a number
unfoldable pub env_int : Environment → String → String → Result ℤ
env_int env name default = parsed (int 10 (get env name (codes default)))

module _ {Float : Type 0} (float : Text → Result Float) where
  -- `_env_float`. The defaults are integers, so their texts have no point.
  unfoldable pub env_float : Environment → String → String → Result Float
  env_float env name default = float (get env name (codes default))

  unfoldable pub from_env : Environment → Result (Settings Float)
  from_env env = do
    health_interval ← env_float env "HEALTH_CHECK_INTERVAL_SECONDS" "10"
    failure_threshold ← env_int env "FAILURE_THRESHOLD" "3"
    backup_interval ← env_float env "BACKUP_INTERVAL_SECONDS" "60"
    backup_retention_count ← env_int env "BACKUP_RETENTION_COUNT" "10"
    recovery_cooldown ← env_float env "RECOVERY_COOLDOWN_SECONDS" "60"
    max_recoveries ← env_int env "MAX_RECOVERIES_PER_WINDOW" "3"
    recovery_window ← env_float env "RECOVERY_WINDOW_SECONDS" "600"
    restart_wait ← env_float env "RESTART_WAIT_SECONDS" "30"
    ok (record {
      gateway_health_url =
          get env "GATEWAY_HEALTH_URL" (codes "http://gateway-simulator:8080/health");
      health_interval = health_interval;
      failure_threshold = failure_threshold;
      config_path = file_path (get env "CONFIG_PATH" (codes "/data/gateway/gateway.yaml"));
      backup_dir = dir_path (get env "BACKUP_DIR" (codes "/data/backups"));
      backup_interval = backup_interval;
      backup_retention_count = backup_retention_count;
      allowed_containers = allowed_names env;
      container_name = get env "GATEWAY_CONTAINER_NAME" (codes "gateway-simulator");
      recovery_cooldown = recovery_cooldown;
      max_recoveries = max_recoveries;
      recovery_window = recovery_window;
      restart_wait = restart_wait;
    })
