-- ===== src/Controller/Application/Tests.antt =====
-- The settings of an environment, a start and a stop.
use nexguard_sentinel.Prelude.{
  ℕ, ◌+◌, ◌<◌, Bool, true, false, ◌||◌, none, some, List, [], ◌∷◌, ◌==◌, nats_eq, nat_eq, string_eq,
  contains, if◌then◌else◌, ℤ, pos, ◌≡◌, refl, ◌⊎◌, ◌↔◌,
}
use nexguard_sentinel.Python.Exec.{Exception, Result, ok, err}
use nexguard_sentinel.Python.Text.{Text, codes, strip, lstrip, rstrip, is_space}
use nexguard_sentinel.Python.Words.{split, join}
use nexguard_sentinel.Python.Pathlib.{file_path, dir_path, parts, path_text}
use nexguard_sentinel.Python.Number.{int, int_signed, magnitude, digits, digit, skip_prefix}
use nexguard_sentinel.Python.Environ.{Environment}
use nexguard_sentinel.Disk.{Bytes, Disk}
use nexguard_sentinel.Controller.Backup.Create.{Manifest}
use nexguard_sentinel.Controller.Config.{Libraries}
use nexguard_sentinel.Controller.Docker.{clean_names}
use nexguard_sentinel.Controller.Settings.{
  Settings, from_env, allowed_names, listed_names, env_int, env_float,
}
use nexguard_sentinel.Controller.Settings.Allowed.{Given, from_env-Given}
use nexguard_sentinel.Controller.Service.{Machine}
use nexguard_sentinel.Controller.Application.{
  TaskEvent, notified, finished, tasks_after, MonitorTask, looping, failed, stop,
}
use nexguard_sentinel.Controller.Application.Stop.{stop-Accounted}

abbrev env : Environment
env name =
    if name == "NEXGUARD_ALLOWED_CONTAINERS"
    then some (codes " gateway, ,sensor")
    else if name == "BACKUP_DIR"
    then some (codes "//var/./backups/")
    else none

abbrev float : Text → Result ℤ
float t = ok (pos 10)

abbrev settings : Settings ℤ
settings = record {
  gateway_health_url = codes "http://gateway-simulator:8080/health";
  health_interval = pos 10;
  failure_threshold = pos 3;
  config_path = record { parent = codes "/data/gateway"; name = codes "gateway.yaml" };
  backup_dir = codes "//var/backups";
  backup_interval = pos 10;
  backup_retention_count = pos 10;
  allowed_containers = codes "gateway" ∷ codes "sensor" ∷ [];
  container_name = codes "gateway-simulator";
  recovery_cooldown = pos 10;
  max_recoveries = pos 3;
  recovery_window = pos 10;
  restart_wait = pos 10;
}

reads : from_env float env ≡ ok settings
unfolding from_env env_float env_int allowed_names clean_names split parts path_text file_path
    dir_path join strip lstrip rstrip is_space int int_signed magnitude digits digit skip_prefix
    nats_eq nat_eq string_eq
reads = refl

from_env-Given_example :
    (contains (clean_names settings.allowed_containers) (codes "gateway") ≡ true)
    ↔ Given (listed_names env) (codes "gateway")
from_env-Given_example = from_env-Given float env settings reads (codes "gateway")

abbrev machine : Machine
machine = record {
  World = ℕ;
  Container = Bool;
  container = λ name w. (ok true, w);
  label = λ c key. none;
  status = λ c. "running";
  restart = λ c timeout w. (ok tt, w);
  reload = λ c w. (ok c, w);
  Response = ℕ;
  Json = Text;
  request = λ url timeout w. (ok 503, w);
  status_code = λ r. r;
  json = λ r. ok [];
  reason_of = λ j. none;
  is_request_error = λ e. true;
  monotonic = λ w. (w, w);
  sleep = λ d w. w + d;
  utc = λ w. ("t", w);
  loop_time = λ w. (w, w);
  loop_sleep = λ d w. w + d;
  readings = λ w. (
    record {
      monotonic = w;
      recovery_monotonic = w;
      wall = w;
      timestamp = codes "5";
      generated_at = codes "t5";
      opened_utc = "t5";
      closed_utc = "t6";
      new_id = "id5";
    },
    w,
  );
}

abbrev libraries : Libraries
libraries = record {
  Value = Text;
  safe_load = λ t. ok t;
  is_dict = λ v. true;
  model_validate = λ s v. [];
  utf8 = λ b. some b;
}

abbrev digest : Bytes → Text
digest contents = []

abbrev manifest_json : Manifest → Bytes
manifest_json m = codes "{}"

abbrev disk : Disk
disk = record { files = []; dirs = []; group = 7; faults = []; tokens = [] }

abbrev events : List TaskEvent
events = finished 0 ∷ notified true ∷ notified false ∷ notified true ∷ []

stop-Accounted_example :
    ((◌≡◌ {A = MonitorTask} looping looping)
      × ((stop looping (tasks_after events)).0 ≡ ok tt)
      × ((stop looping (tasks_after events)).1.pending ≡ [])
      × ((i : ℕ)
          → i < (tasks_after events).created
          → contains (stop looping (tasks_after events)).1.cancelled i
              || contains (tasks_after events).done i
            ≡ true))
    ⊎ ((e : Exception) × (looping ≡ failed e)
        × (stop looping (tasks_after events) ≡ (err e, tasks_after events)))
stop-Accounted_example = stop-Accounted events looping
