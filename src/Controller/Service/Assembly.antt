-- ===== src/Controller/Service/Assembly.antt =====
-- `ControllerRuntime.__init__` of main.py, from the settings as they were read.
use nexguard_sentinel.Prelude.{ℕ, [], ℤ, pos_part}
use nexguard_sentinel.Python.Exec.{Result}
use nexguard_sentinel.Python.Text.{Text}
use nexguard_sentinel.Disk.{Bytes, Disk}
use nexguard_sentinel.Controller.Incident
use nexguard_sentinel.Controller.Recovery
use nexguard_sentinel.Controller.Backup.Create.{Manifest}
use nexguard_sentinel.Controller.Config.{Libraries}
use nexguard_sentinel.Controller.Settings.{Settings}
use nexguard_sentinel.Controller.Service.{Machine, ControllerRuntime, operations, both}

-- The settings that the managers use. A negative interval of the health checks or of the backups has
-- passed at every reading of a clock that does not go back, as one of zero has.
abbrev pub natural : Settings ℤ → Settings ℕ
natural G = record {
  gateway_health_url = G.gateway_health_url;
  health_interval = pos_part G.health_interval;
  failure_threshold = G.failure_threshold;
  config_path = G.config_path;
  backup_dir = G.backup_dir;
  backup_interval = pos_part G.backup_interval;
  backup_retention_count = G.backup_retention_count;
  allowed_containers = G.allowed_containers;
  container_name = G.container_name;
  recovery_cooldown = pos_part G.recovery_cooldown;
  max_recoveries = G.max_recoveries;
  recovery_window = pos_part G.recovery_window;
  restart_wait = pos_part G.restart_wait;
}

abbrev pub recovery_arguments : Settings ℤ → Recovery.Arguments
recovery_arguments G = record {
  config_path = G.config_path;
  backup_dir = G.backup_dir;
  container_name = G.container_name;
  cooldown_seconds = G.recovery_cooldown;
  max_recoveries_per_window = G.max_recoveries;
  recovery_window_seconds = G.recovery_window;
  restart_wait_seconds = G.restart_wait;
}

unfoldable pub new_runtime :
    (M : Machine) (G : Settings ℤ) (sha256 : Bytes → Text) (L : Libraries)
    (manifest_json : Manifest → Bytes)
    → Disk
    → M.World
    → Result (ControllerRuntime M (natural G) sha256 L manifest_json)
new_runtime M G sha256 L manifest_json disk w =
    both M (natural G) sha256 L manifest_json (Incident.new_manager G.failure_threshold) (
      Recovery.new_manager (operations M (natural G) sha256 L manifest_json) sha256
        (recovery_arguments G) disk (record { world = w; docker_log = []; health_log = [] }))
