-- ===== src/Controller/Application.antt =====
-- The web application of main.py: `lifespan`, its answer to a health request, and the tasks of the
-- runtime's notifications. A float is read as whole ticks. `docker.from_env` is a parameter beside
-- those of Controller.Service.
pub mod Start
pub mod Stop
mod Tests
use nexguard_sentinel.Prelude.{
  ℕ, ◌+◌, String, Bool, Option, none, some, List, [], ◌∷◌, ◌++◌, ◌==◌, nat_eq, if◌then◌else◌, ℤ,
}
use nexguard_sentinel.Python.Exec.{Exception, Result, ok, err, Exec, lift, ◌>>=◌, ◌>>◌}
use nexguard_sentinel.Python.Text.{Text}
use nexguard_sentinel.Python.Environ.{Environment}
use nexguard_sentinel.Disk.{Bytes, Disk}
use nexguard_sentinel.Controller.Backup.Create.{Manifest}
use nexguard_sentinel.Controller.Config.{Libraries}
use nexguard_sentinel.Controller.Recovery.{RecoveryStatus, ready, manual_intervention_required}
use nexguard_sentinel.Controller.Settings.{Settings, from_env}
use nexguard_sentinel.Controller.Service.{Machine, ControllerRuntime}
use nexguard_sentinel.Controller.Service.Assembly.{natural, new_runtime}

module _ (M : Machine) (sha256 : Bytes → Text) (L : Libraries) (manifest_json : Manifest → Bytes)
    (float : Text → Result ℤ) (docker_from_env : Exec M.World (Unit {0})) where
  -- `runtime`, with its settings
  pub record Started : Type 0 where
    pub settings : Settings ℤ
    pub runtime : ControllerRuntime M (natural settings) sha256 L manifest_json

  abbrev pub started :
      (S : Settings ℤ)
      → Result (ControllerRuntime M (natural S) sha256 L manifest_json)
      → Result Started
  started S (ok r) = ok (record { settings = S; runtime = r })
  started S (err e) = err e

  -- `lifespan`, up to the task of the supervision loop
  unfoldable pub start : Environment → Disk → Exec M.World Started
  start env disk = do
    settings ← lift (from_env float env)
    docker_from_env
    λ w. (started settings (new_runtime M settings sha256 L manifest_json disk w), w)

  abbrev pub status_text : RecoveryStatus → String
  status_text ready = "ready"
  status_text manual_intervention_required = "manual_intervention_required"

  -- `health`
  unfoldable pub health : Option Started → String
  health none = "starting"
  health (some a) = status_text a.runtime.recovery.status

-- `_notification_tasks`: the tasks by number, and beside them those that have ended by themselves and
-- those that have been cancelled.
pub record Tasks : Type 0 where
  pub pending : List ℕ
  pub created : ℕ
  pub done : List ℕ
  pub cancelled : List ℕ

-- `_notify`: `send_async` creates a task if the notifier is configured.
unfoldable pub notify : Bool → Tasks → Tasks
notify configured t =
    if configured then record t { pending = t.created ∷ t.pending; created = t.created + 1 } else t

abbrev pub discard : ℕ → List ℕ → List ℕ
discard i [] = []
discard i (j ∷ js) = let rest = discard i js in if j == i then rest else j ∷ rest

-- A task ends, and its callback discards it.
unfoldable pub finish_task : ℕ → Tasks → Tasks
finish_task i t = record t { pending = discard i t.pending; done = i ∷ t.done }

-- `close`: what is pending is cancelled and awaited, and the callbacks discard it.
unfoldable pub close : Tasks → Tasks
close t = record t { pending = []; cancelled = t.pending ++ t.cancelled }

-- What happens to the tasks while the application runs, newest first.
pub data TaskEvent : Type 0 where
  notified : Bool → TaskEvent
  finished : ℕ → TaskEvent

abbrev pub on_event : TaskEvent → Tasks → Tasks
on_event (notified configured) t = notify configured t
on_event (finished i) t = finish_task i t

unfoldable pub tasks_after : List TaskEvent → Tasks
tasks_after [] = record { pending = []; created = 0; done = []; cancelled = [] }
tasks_after (e ∷ earlier) = on_event e (tasks_after earlier)

-- The task of the supervision loop, which only an exception ends before it is cancelled.
pub data MonitorTask : Type 0 where
  looping : MonitorTask
  failed : Exception → MonitorTask

-- `lifespan`, from the `finally` on: awaiting a task that has failed raises its exception.
unfoldable pub stop : MonitorTask → Exec Tasks (Unit {0})
stop looping t = (ok tt, close t)
stop (failed e) t = (err e, t)
