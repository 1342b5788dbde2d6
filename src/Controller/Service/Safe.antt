-- ===== src/Controller/Service/Safe.antt =====
-- What supervision may do to the world outside of the controller.
use nexguard_sentinel.Prelude.{ℕ, true, some, nats_eq, contains, ◌≡◌}
use nexguard_sentinel.Python.Exec.{ok}
use nexguard_sentinel.Python.Gives.{Keeps}
use nexguard_sentinel.Python.Text.{Text}
use nexguard_sentinel.Disk.{Bytes}
use nexguard_sentinel.Controller.Models.{HealthResult}
use nexguard_sentinel.Controller.Docker.{clean_names}
use nexguard_sentinel.Controller.Docker.World as DockerWorld
use nexguard_sentinel.Controller.Docker.World.{restart_container-world, wait_for_running-world}
use nexguard_sentinel.Controller.Health
use nexguard_sentinel.Controller.Health.World as HealthWorld
use nexguard_sentinel.Controller.Health.World.{check_once-Keeps, run-Keeps}
use nexguard_sentinel.Controller.Recovery.World as RecoveryWorld
use nexguard_sentinel.Controller.Runtime.World.{handle_health_result-world}
use nexguard_sentinel.Controller.Backup.Create.{Manifest}
use nexguard_sentinel.Controller.Config.{Libraries}
use nexguard_sentinel.Controller.Settings.{Settings}
use nexguard_sentinel.Controller.Service.{
  Machine, Outside, monitor_settings, recovery_settings, docker_client, http_client, operations,
  ControllerRuntime, world_of, service_client, callback, supervise,
}

-- What a supervision is free to do keeps `I`: to look at the clocks, to sleep, to send the health
-- request, to look up the configured container and read its attributes, and to restart it with a
-- timeout of 10 if its name is on the list and it has the managed label.
pub record IsKept (M : Machine) (S : Settings ℕ) (I : M.World → Type 0) : Type 0 where
  pub requests : (w : M.World) → I w → I (M.request S.gateway_health_url 5000000 w).1
  pub lookups : (w : M.World) → I w → I (M.container S.container_name w).1
  pub reloads : (c : M.Container) (w : M.World) → I w → I (M.reload c w).1
  pub restarts :
      contains (clean_names S.allowed_containers) S.container_name ≡ true
      → (w : M.World) (c : M.Container) → (M.container S.container_name w).0 ≡ ok c
      → M.label c "io.nexguard.managed" ≡ some "true"
      → I w
      → I (M.restart c 10 (M.container S.container_name w).1).1
  pub ticks : (w : M.World) → I w → I (M.monotonic w).1
  pub sleeps : (d : ℕ) (w : M.World) → I w → I (M.sleep d w)
  pub dates : (w : M.World) → I w → I (M.utc w).1
  pub loop_times : (w : M.World) → I w → I (M.loop_time w).1
  pub loop_sleeps : (d : ℕ) (w : M.World) → I w → I (M.loop_sleep d w)
  pub readings : (w : M.World) → I w → I (M.readings w).1

module _ (M : Machine) (S : Settings ℕ) (sha256 : Bytes → Text) (L : Libraries)
    (manifest_json : Manifest → Bytes) (I : M.World → Type 0) (K : IsKept M S I) where
  docker_frame :
      DockerWorld.Frame
        (docker_client M S sha256 L manifest_json)
        S.allowed_containers
        S.container_name
        I
  docker_frame = record {
    gets = K.lookups;
    restarts = K.restarts;
    reloads = K.reloads;
    ticks = K.ticks;
    sleeps = K.sleeps;
  }

  monitor_frame : HealthWorld.Frame (http_client M S sha256 L manifest_json) (monitor_settings S) I
  monitor_frame = record {
    gets = K.requests;
    ticks = K.ticks;
    dates = K.dates;
    sleeps = K.loop_sleeps;
  }

  abbrev Beyond : Outside M S sha256 L manifest_json → Type 0
  Beyond o = I o.world

  recovery_frame :
      RecoveryWorld.Frame (operations M S sha256 L manifest_json) (recovery_settings S) Beyond
  recovery_frame = record {
    restarts = λ o i.
        restart_container-world (docker_client M S sha256 L manifest_json) S.allowed_containers
          S.container_name I docker_frame _ i;
    waits = λ o i.
        wait_for_running-world (docker_client M S sha256 L manifest_json) S.allowed_containers
          S.container_name I docker_frame _ _ _ i;
    checks = λ o i.
        (check_once-Keeps (http_client M S sha256 L manifest_json) (monitor_settings S) I
            monitor_frame).keeps
          _ i;
    reads = λ o i. K.loop_times o.world i;
    sleeps = λ d o i. K.loop_sleeps d o.world i;
  }

  abbrev Around : ControllerRuntime M S sha256 L manifest_json → Type 0
  Around r = I (world_of M S sha256 L manifest_json r)

  service_frame :
      HealthWorld.Frame (service_client M S sha256 L manifest_json) (monitor_settings S) Around
  service_frame = record {
    gets = λ r i. K.requests _ i;
    ticks = λ r i. K.ticks _ i;
    dates = λ r i. K.dates _ i;
    sleeps = λ d r i. K.loop_sleeps d _ i;
  }

  callback-Keeps :
      (h : HealthResult) → Keeps (λ s. Around s.world) (callback M S sha256 L manifest_json h)
  unfolding callback
  callback-Keeps h = record {
    keeps = λ s i.
        handle_health_result-world (operations M S sha256 L manifest_json) sha256
          (recovery_settings S) Beyond recovery_frame L manifest_json S.backup_interval
          S.backup_retention_count _ h _ (K.readings _ i);
  }

  -- Whatever the calls that supervision is free to make keep, it keeps, for any number of rounds and
  -- whatever the calls return or raise. A restart is free only with a timeout of 10 and of the
  -- configured container, found under its name just before, if that is on the list and the container
  -- has the managed label.
  pub supervise-kept :
      (iterations : ℕ)
      (s : Health.Watch (service_client M S sha256 L manifest_json) (monitor_settings S))
      → I (world_of M S sha256 L manifest_json s.world)
      → I (
          world_of M S sha256 L manifest_json
            (supervise M S sha256 L manifest_json iterations s).1.world)
  unfolding supervise
  supervise-kept iterations s i =
      (run-Keeps (service_client M S sha256 L manifest_json) (monitor_settings S) Around
          service_frame (callback M S sha256 L manifest_json) callback-Keeps iterations).keeps
        s i
