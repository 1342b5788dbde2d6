-- ===== src/Controller/Docker.antt =====
-- docker_manager.py. The Docker client, the clock and `sleep` are parameters, over an unknown world
-- that their calls change. Times are whole ticks.
pub mod Guards
pub mod Waiting
pub mod World
use nexguard_sentinel.Prelude.{
  ℕ, zero, suc, ◌+◌, ◌-◌, ◌≤◌, min, String, Bool, true, false, not, ◌&&◌, ◌||◌, Option, none, some,
  List, [], ◌∷◌, leb, ◌==◌, string_eq, nats_eq, contains, if◌then◌else◌, ℤ, is_negative, pos_part,
  ◌≡◌,
}
use nexguard_sentinel.Python.Exec.{
  Exception, Result, ok, err, value_error, security_block_error, Exec, pure, raise, ◌>>=◌, ◌>>◌,
}
use nexguard_sentinel.Python.Text.{Text, strip}
use nexguard_sentinel.Controller.Log.{LogEvent, text}

-- `DockerClientProtocol`, `ContainerProtocol` and the two functions of `time`.
pub record Client : Type 1 where
  pub World : Type 0
  pub Container : Type 0
  pub get : Text → Exec World Container
  pub label : Container → String → Option String
  pub status : Container → String
  pub restart : Container → ℕ → Exec World (Unit {0})
  -- the container with its attributes read again
  pub reload : Container → Exec World Container
  pub monotonic : World → ℕ × World
  pub sleep : ℕ → World → World

-- What the documentation says of the clock: it never goes back, also not across a call, and a sleep
-- lasts as long as it is asked to.
pub record IsTimely (C : Client) : Type 0 where
  pub time : C.World → ℕ
  pub reads : (w : C.World) → (C.monotonic w).0 ≡ time (C.monotonic w).1
  pub forward : (w : C.World) → time w ≤ time (C.monotonic w).1
  pub sleeps : (d : ℕ) (w : C.World) → time w + d ≤ time (C.sleep d w)
  pub reload_forward : (c : C.Container) (w : C.World) → time w ≤ time (C.reload c w).1

-- {name.strip() for name in allowed_containers if name.strip()}
unfoldable pub clean_names : List Text → List Text
clean_names [] = []
clean_names (name ∷ names) =
    let rest = clean_names names in if strip name == [] then rest else strip name ∷ rest

module _ (C : Client) where
  open C use {World, Container, get, label, status, restart, reload, monotonic, sleep}

  -- The world, and what the manager has logged, newest first.
  pub record Station : Type 0 where
    pub world : World
    pub log : List (Text × LogEvent)

  -- A call of the client.
  abbrev pub on_world : {A : Type 0} → Exec World A → Exec Station A
  on_world m s = ((m s.world).0, record s { world = (m s.world).1 })

  abbrev pub block_event : String → LogEvent
  block_event reason = record {
    event_type = "SECURITY_BLOCK";
    level = "ERROR";
    message = "Container restart blocked by security policy";
    context = ("reason", text reason) ∷ [];
  }

  -- `_security_block`; the container's name stands beside the event
  unfoldable pub security_block : Text → String → Exec Station (Unit {0})
  security_block name reason s =
      (err (security_block_error reason), record s { log = (name, block_event reason) ∷ s.log })

  abbrev pub is_managed : Container → Bool
  is_managed c = elim (label c "io.nexguard.managed") [ none ↦ false | some v ↦ v == "true" ]

  -- The test of the label, and the restart.
  unfoldable pub restart_managed : Text → Container → Exec Station (Unit {0})
  restart_managed name container =
      if is_managed container
      then on_world (restart container 10)
      else security_block name "managed_label_missing"

  unfoldable pub restart_container : List Text → Text → Exec Station (Unit {0})
  restart_container allowed name =
      if contains (clean_names allowed) name
      then on_world (get name) >>= restart_managed name
      else security_block name "container_not_in_allowlist"

  -- The loop of `wait_for_running`, over the container and the deadline; `none` means that the fuel
  -- ran out.
  unfoldable pub poll : ℕ → ℕ → ℕ → Container → Exec World (Option Bool)
  poll zero interval deadline container w = (ok none, w)
  poll (suc fuel) interval deadline container w =
      let (loaded, w') = reload container w in
      let (now, w'') = monotonic w' in
      elim loaded [
        | err e ↦ (err e, w')
        | ok c ↦ elim (status c == "running") [
          | true ↦ (ok (some true), w')
          | false ↦ elim (leb deadline now) [
            | true ↦ (ok (some false), w'')
            | false ↦ poll fuel interval deadline c (sleep (min interval (deadline - now)) w'')
          ]
        ]
      ]

  -- The deadline is set when the container has been found. The fuel is one more than the ticks to
  -- the deadline, since each round sleeps for a tick or more.
  unfoldable pub poll_from : ℕ → ℕ → Container → Exec World (Option Bool)
  poll_from timeout interval container w =
      let (now, w') = monotonic w in poll (timeout + 1) interval (now + timeout) container w'

  unfoldable pub wait_for_running : Text → ℤ → ℤ → Exec World (Option Bool)
  wait_for_running name timeout interval =
      if is_negative timeout || leb (pos_part interval) 0
      then raise (value_error "timeout must be non-negative and poll_interval must be positive")
      else get name >>= poll_from (pos_part timeout) (pos_part interval)
