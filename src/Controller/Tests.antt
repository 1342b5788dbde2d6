-- ===== src/Controller/Tests.antt =====
-- Runs of the controller, and its guarantees at concrete inputs.
use nexguard_sentinel.Prelude.{
  ℕ, ◌+◌, ◌<◌, String, Bool, true, false, Option, none, some, List, [], ◌∷◌, leb, nats_eq, nat_eq,
  string_eq, contains, if◌then◌else◌, pos, ◌≡◌, refl, arith,
}
use nexguard_sentinel.Python.Exec.{ok}
use nexguard_sentinel.Python.Text.{Text, codes, strip, lstrip, rstrip, is_space}
use nexguard_sentinel.Controller.Docker.{
  Client, IsTimely, Station, clean_names, restart_managed, restart_container, poll, poll_from,
  wait_for_running,
}
use nexguard_sentinel.Controller.Docker.Guards.{Answered, restart_container-allowed}
use nexguard_sentinel.Controller.Docker.Waiting.{Polled, wait_for_running-Polled}

-- A container that runs once the clock has reached 10. The world is the clock.
abbrev docker : Option String → Client
docker managed = record {
  World = ℕ;
  Container = Bool;
  get = λ name w. (ok false, w + 1);
  label = λ c key. managed;
  status = λ c. if c then "running" else "created";
  restart = λ c timeout w. (ok tt, w + timeout);
  reload = λ c w. (ok (leb 10 w), w + 1);
  monotonic = λ w. (w + 1, w + 1);
  sleep = λ d w. w + d;
}

abbrev docker_timely : IsTimely (docker (some "true"))
docker_timely = record {
  time = λ w. w;
  reads = λ w. refl;
  forward = λ w. omega arith;
  sleeps = λ d w. omega arith;
  reload_forward = λ c w. omega arith;
}

abbrev gateway : Text
gateway = codes "gateway"

abbrev names : List Text
names = codes " gateway " ∷ codes "  " ∷ []

abbrev station : (managed : Option String) → Station (docker managed)
station managed = record { world = 0; log = [] }

on_the_list : contains (clean_names names) gateway ≡ true
unfolding clean_names strip lstrip rstrip is_space nats_eq
on_the_list = refl

off_the_list : contains (clean_names names) (codes "other") ≡ false
unfolding clean_names strip lstrip rstrip is_space nats_eq
off_the_list = refl

gateway_restarted :
    (restart_container (docker (some "true")) names gateway (station (some "true"))).0 ≡ ok tt
unfolding restart_container restart_managed clean_names strip lstrip rstrip is_space nats_eq
    string_eq
gateway_restarted = refl

restart_container-allowed_example :
    Answered
      (docker (some "true"))
      names
      gateway
      (station (some "true"))
      (restart_container (docker (some "true")) names gateway (station (some "true"))).0
      (restart_container (docker (some "true")) names gateway (station (some "true"))).1
restart_container-allowed_example =
    restart_container-allowed (docker (some "true")) names gateway (station (some "true"))

three_positive : 0 < 3
three_positive = omega arith

wait_for_running-Polled_example :
    Polled
      (docker (some "true"))
      docker_timely
      3
      22
      three_positive
      (wait_for_running (docker (some "true")) gateway (pos 20) (pos 3) 0).0
      (wait_for_running (docker (some "true")) gateway (pos 20) (pos 3) 0).1
wait_for_running-Polled_example =
    wait_for_running-Polled (docker (some "true")) docker_timely gateway 20 3 three_positive 0 false
      refl

-- The container is seen running before the timeout, and not seen with a short one.
waits : (wait_for_running (docker none) gateway (pos 20) (pos 3) 0).0 ≡ ok (some true)
unfolding wait_for_running poll_from poll string_eq
waits = refl

waits_in_vain : (wait_for_running (docker none) gateway (pos 2) (pos 3) 0).0 ≡ ok (some false)
unfolding wait_for_running poll_from poll string_eq
waits_in_vain = refl
