-- ===== src/Controller/Service/Tests.antt =====
-- The supervision of a gateway that is down.
use nexguard_sentinel.Prelude.{
  ℕ, ◌+◌, Bool, true, false, none, some, [], ◌∷◌, nats_eq, nat_eq, string_eq, if◌then◌else◌, pos,
  ◌≡◌, refl,
}
use nexguard_sentinel.Python.Exec.{ok}
use nexguard_sentinel.Python.Text.{Text, codes}
use nexguard_sentinel.Disk.{Bytes, Disk, FilePath}
use nexguard_sentinel.Controller.Health
use nexguard_sentinel.Controller.Recovery.{ready}
use nexguard_sentinel.Controller.Backup.Create.{Manifest}
use nexguard_sentinel.Controller.Config.{Libraries}
use nexguard_sentinel.Controller.Runtime.{Clock}
use nexguard_sentinel.Controller.Settings.{Settings}
use nexguard_sentinel.Controller.Service.{
  Machine, monitor_settings, ControllerRuntime, world_of, service_client, supervise,
}
use nexguard_sentinel.Controller.Service.Safe.{IsKept, supervise-kept}

-- The time, and how many restarts there were of containers with the label and without.
record Outer : Type 0 where
  time : ℕ
  restarts : ℕ
  others : ℕ

abbrev later : ℕ → Outer → Outer
later d w = record w { time = w.time + d }

abbrev count_restart : Bool → Outer → Outer
count_restart true w = record w { restarts = w.restarts + 1 }
count_restart false w = record w { others = w.others + 1 }

abbrev clock : ℕ → Clock
clock time = record {
  monotonic = time;
  recovery_monotonic = time;
  wall = time;
  timestamp = codes "5";
  generated_at = codes "t5";
  opened_utc = "t5";
  closed_utc = "t6";
  new_id = "id5";
}

-- A container is known by whether it has the label.
abbrev machine : Machine
machine = record {
  World = Outer;
  Container = Bool;
  container = λ name w. (ok true, later 1 w);
  label = λ c key. if c then some "true" else none;
  status = λ c. "running";
  restart = λ c timeout w. (ok tt, count_restart c w);
  reload = λ c w. (ok c, later 1 w);
  Response = ℕ;
  Json = Text;
  request = λ url timeout w. (ok 503, later 2 w);
  status_code = λ r. r;
  json = λ r. ok [];
  reason_of = λ j. none;
  is_request_error = λ e. true;
  monotonic = λ w. (w.time, w);
  sleep = later;
  utc = λ w. ("t", w);
  loop_time = λ w. (w.time, later 1 w);
  loop_sleep = later;
  readings = λ w. (clock w.time, w);
}

abbrev config : FilePath
config = record { parent = codes "/config"; name = codes "gateway.yaml" }

abbrev settings : Settings ℕ
settings = record {
  gateway_health_url = codes "/health";
  health_interval = 10000000;
  failure_threshold = pos 1;
  config_path = config;
  backup_dir = codes "/backups";
  backup_interval = 60000000;
  backup_retention_count = pos 10;
  allowed_containers = codes "gateway" ∷ [];
  container_name = codes "gateway";
  recovery_cooldown = 5;
  max_recoveries = pos 2;
  recovery_window = 100;
  restart_wait = 1000000;
}

abbrev digest : Bytes → Text
digest contents = []

abbrev libraries : Libraries
libraries = record {
  Value = Text;
  safe_load = λ t. ok t;
  is_dict = λ v. true;
  model_validate = λ s v. [];
  utf8 = λ b. some b;
}

abbrev manifest_json : Manifest → Bytes
manifest_json m = codes "{}"

abbrev disk : Disk
disk = record {
  files = (config, record { contents = codes "good"; mode = 0o600; gid = 5 }) ∷ [];
  dirs = (codes "/config", 5) ∷ (codes "/backups", 7) ∷ [];
  group = 7;
  faults = [];
  tokens = [];
}

abbrev runtime : ControllerRuntime machine settings digest libraries manifest_json
runtime = record {
  incidents = record {
    failure_threshold = 1;
    consecutive_failures = 0;
    current_incident = none;
    failures_gauge = 0;
    incidents_total = 0;
    log = [];
  };
  recovery = record {
    status = ready;
    attempts = [];
    last_attempt = none;
    disk = disk;
    world = record {
      world = record { time = 0; restarts = 0; others = 0 };
      docker_log = [];
      health_log = [];
    };
    log = [];
  };
  last_backup = none;
  gateway_up = 0;
  config_integrity = 0;
  last_backup_timestamp = 0;
  recoveries_total = 0;
  messages = [];
  log = [];
}

abbrev start :
    Health.Watch
      (service_client machine settings digest libraries manifest_json)
      (monitor_settings settings)
start = record { world = runtime; log = [] }

abbrev end : Outer
end =
    world_of machine settings digest libraries manifest_json
      (supervise machine settings digest libraries manifest_json 3 start).1.world

no_other :
    (c : Bool) (w : Outer)
    → machine.label c "io.nexguard.managed" ≡ some "true"
    → w.others ≡ 0
    → (count_restart c w).others ≡ 0
no_other true w h i = i
no_other false w h i = cc

is_kept : IsKept machine settings (λ w. w.others ≡ 0)
is_kept = record {
  requests = λ w i. i;
  lookups = λ w i. i;
  reloads = λ c w i. i;
  restarts = λ listed w c found labelled i. no_other c (later 1 w) labelled i;
  ticks = λ w i. i;
  sleeps = λ d w i. i;
  dates = λ w i. i;
  loop_times = λ w i. i;
  loop_sleeps = λ d w i. i;
  readings = λ w i. i;
}

supervise-kept_example : end.others ≡ 0
supervise-kept_example =
    supervise-kept machine settings digest libraries manifest_json (λ w. w.others ≡ 0) is_kept 3
      start refl
