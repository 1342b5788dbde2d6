-- ===== src/Controller/Service.antt =====
-- The controller as main.py puts it together: the parts of `ControllerRuntime` and the supervision loop
-- that `lifespan` starts. One world stands behind the Docker client, the HTTP client, the clocks and
-- the event loop. Times are whole ticks of a microsecond.
pub mod Assembly
pub mod Safe
mod Tests
use nexguard_sentinel.Prelude.{
  ℕ, String, Bool, true, false, Option, none, some, List, [], ◌∷◌, ℤ, pos, pos_part,
}
use nexguard_sentinel.Python.Exec.{Exception, Result, ok, err, Exec}
use nexguard_sentinel.Python.Text.{Text}
use nexguard_sentinel.Disk.{Bytes, FilePath, Disk}
use nexguard_sentinel.Controller.Log.{LogEvent}
use nexguard_sentinel.Controller.Models.{HealthResult}
use nexguard_sentinel.Controller.Docker
use nexguard_sentinel.Controller.Health
use nexguard_sentinel.Controller.Incident
use nexguard_sentinel.Controller.Recovery
use nexguard_sentinel.Controller.Backup.Create.{Manifest}
use nexguard_sentinel.Controller.Config.{Libraries}
use nexguard_sentinel.Controller.Settings.{Settings}
use nexguard_sentinel.Controller.Runtime.{Clock, Runtime, handle_health_result}

pub record Machine : Type 1 where
  pub World : Type 0
  -- docker
  pub Container : Type 0
  pub container : Text → Exec World Container
  pub label : Container → String → Option String
  pub status : Container → String
  pub restart : Container → ℕ → Exec World (Unit {0})
  pub reload : Container → Exec World Container
  -- httpx
  pub Response : Type 0
  pub Json : Type 0
  pub request : Text → ℕ → Exec World Response
  pub status_code : Response → ℕ
  pub json : Response → Result Json
  pub reason_of : Json → Option String
  pub is_request_error : Exception → Bool
  -- time and datetime
  pub monotonic : World → ℕ × World
  pub sleep : ℕ → World → World
  pub utc : World → String × World
  -- asyncio
  pub loop_time : World → ℕ × World
  pub loop_sleep : ℕ → World → World
  -- what the clocks and the id factory return while one health result is handled
  pub readings : World → Clock × World

-- The arguments of `HealthMonitor`, whose timeout is five seconds by default.
abbrev pub monitor_settings : Settings ℕ → Health.Settings
monitor_settings S = record {
  health_url = S.gateway_health_url;
  interval_seconds = S.health_interval;
  timeout_seconds = 5000000;
}

-- The arguments of `RecoveryManager`, which refuses a number of recoveries below one.
abbrev pub recovery_settings : Settings ℕ → Recovery.Settings
recovery_settings S = record {
  config_path = S.config_path;
  backup_dir = S.backup_dir;
  container_name = S.container_name;
  cooldown_seconds = S.recovery_cooldown;
  max_recoveries_per_window = pos_part S.max_recoveries;
  recovery_window_seconds = S.recovery_window;
  restart_wait_seconds = S.restart_wait;
}

module _ (M : Machine) (S : Settings ℕ) (sha256 : Bytes → Text) (L : Libraries)
    (manifest_json : Manifest → Bytes) where
  abbrev pub docker_client : Docker.Client
  docker_client = record {
    World = M.World;
    Container = M.Container;
    get = M.container;
    label = M.label;
    status = M.status;
    restart = M.restart;
    reload = M.reload;
    monotonic = M.monotonic;
    sleep = M.sleep;
  }

  abbrev pub http_client : Health.Client
  http_client = record {
    World = M.World;
    Response = M.Response;
    Json = M.Json;
    get = M.request;
    status_code = M.status_code;
    json = M.json;
    reason_of = M.reason_of;
    is_request_error = M.is_request_error;
    monotonic = M.monotonic;
    utc = M.utc;
    sleep = M.loop_sleep;
  }

  -- The world, with what the Docker manager has logged and what the monitor has logged in a recovery.
  pub record Outside : Type 0 where
    pub world : M.World
    pub docker_log : List (Text × LogEvent)
    pub health_log : List LogEvent

  abbrev on_station : {A : Type 0} → Exec (Docker.Station docker_client) A → Exec Outside A
  on_station m o =
      let (r, s) = m (record { world = o.world; log = o.docker_log }) in
      (r, record o { world = s.world; docker_log = s.log })

  abbrev on_watch :
      {A : Type 0} → Exec (Health.Watch http_client (monitor_settings S)) A → Exec Outside A
  on_watch m o =
      let (r, s) = m (record { world = o.world; log = o.health_log }) in
      (r, record o { world = s.world; health_log = s.log })

  -- The fuel of `wait_for_running` does not run out: Docker.Waiting.
  abbrev waited : Result (Option Bool) → Result Bool
  waited (err e) = err e
  waited (ok none) = ok false
  waited (ok (some running)) = ok running

  -- The operations of the recovery manager: the Docker manager's and the monitor's. `poll_interval`
  -- is half a second.
  abbrev pub operations : Recovery.Operations
  operations = record {
    World = Outside;
    restart_container =
        λ name. on_station (Docker.restart_container docker_client S.allowed_containers name);
    wait_for_running = λ name timeout o.
        let (r, w) =
          Docker.wait_for_running docker_client name (pos timeout) (pos 500000) o.world in
        (waited r, record o { world = w });
    health_check = on_watch (Health.check_once http_client (monitor_settings S));
    loop_time = λ o. let (t, w) = M.loop_time o.world in (t, record o { world = w });
    loop_sleep = λ d o. record o { world = M.loop_sleep d o.world };
  }

  abbrev pub ControllerRuntime : Type 0
  ControllerRuntime =
      Runtime operations sha256 (recovery_settings S) L manifest_json S.backup_interval
        S.backup_retention_count

  abbrev pub with_world : M.World → ControllerRuntime → ControllerRuntime
  with_world w r = record r {
    recovery = record r.recovery { world = record r.recovery.world { world = w } };
  }

  abbrev pub world_of : ControllerRuntime → M.World
  world_of r = r.recovery.world.world

  abbrev inside : {A : Type 0} → (M.World → A × M.World) → ControllerRuntime → A × ControllerRuntime
  inside m r = let (a, w) = m (world_of r) in (a, with_world w r)

  -- The client of the loop, whose world has the runtime in it.
  abbrev pub service_client : Health.Client
  service_client = record {
    World = ControllerRuntime;
    Response = M.Response;
    Json = M.Json;
    get = λ url timeout. inside (M.request url timeout);
    status_code = M.status_code;
    json = M.json;
    reason_of = M.reason_of;
    is_request_error = M.is_request_error;
    monotonic = inside M.monotonic;
    utc = inside M.utc;
    sleep = λ d r. with_world (M.loop_sleep d (world_of r)) r;
  }

  -- The fuel of a recovery does not run out: Recovery.Answers.
  abbrev handled : Result (Option (Unit {0})) → Result (Unit {0})
  handled (err e) = err e
  handled (ok _) = ok tt

  -- `runtime.handle_health_result`, as the callback of the loop.
  unfoldable pub callback :
      HealthResult → Exec (Health.Watch service_client (monitor_settings S)) (Unit {0})
  callback health s =
      let (t, w) = M.readings (world_of s.world) in
      let (r, after) =
        handle_health_result operations sha256 (recovery_settings S) L manifest_json
          S.backup_interval S.backup_retention_count t health (with_world w s.world) in
      (handled r, record s { world = after })

  -- runtime.monitor.run(runtime.handle_health_result)
  unfoldable pub supervise : ℕ → Exec (Health.Watch service_client (monitor_settings S)) (Unit {0})
  supervise iterations = Health.run service_client (monitor_settings S) callback iterations

  -- `ControllerRuntime.__init__` and the constructors that it calls. The gauges are at zero.
  abbrev pub both :
      Result Incident.IncidentManager
      → Result (Recovery.RecoveryManager operations sha256 (recovery_settings S))
      → Result ControllerRuntime
  both (err e) _ = err e
  both (ok _) (err e) = err e
  both (ok incidents) (ok recovery) = ok (record {
    incidents = incidents;
    recovery = recovery;
    last_backup = none;
    gateway_up = 0;
    config_integrity = 0;
    last_backup_timestamp = 0;
    recoveries_total = 0;
    messages = [];
    log = [];
  })
