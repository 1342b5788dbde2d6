-- ===== src/Gateway/Tests.antt =====
-- A run of the simulator, and its agreement with the controller at a concrete disk.
use nexguard_sentinel.Prelude.{
  true, some, [], ◌∷◌, ◌==◌, nats_eq, nat_eq, string_eq, if◌then◌else◌, ◌≡◌, refl, ◌↔◌,
}
use nexguard_sentinel.Python.Exec.{ok}
use nexguard_sentinel.Python.Text.{Text, codes, strip, lstrip, rstrip, is_space}
use nexguard_sentinel.Disk.{FilePath, Disk, lookup, syscall, read_file}
use nexguard_sentinel.Controller.Config.{Libraries, check_config}
use nexguard_sentinel.Gateway.{answer, parse_document, load_config, config_is_valid, health}
use nexguard_sentinel.Gateway.Agreement.{health-agrees}

-- A text is its own value, and only "good" meets the schema.
abbrev libraries : Libraries
libraries = record {
  Value = Text;
  safe_load = λ t. ok t;
  is_dict = λ v. true;
  model_validate = λ s v. if v == codes "good" then [] else "missing" ∷ [];
  utf8 = λ b. some b;
}

abbrev config : FilePath
config = record { parent = codes "/data"; name = codes "gateway.yaml" }

abbrev disk : Disk
disk = record {
  files = (config, record { contents = codes "good"; mode = 0o640; gid = 5 }) ∷ [];
  dirs = (codes "/data", 5) ∷ [];
  group = 7;
  faults = [];
  tokens = [];
}

is_healthy : (health libraries config disk).0 ≡ ok (answer libraries true)
unfolding health config_is_valid load_config parse_document lookup syscall read_file strip lstrip
    rstrip is_space nats_eq
is_healthy = refl

health-agrees_example :
    ((health libraries config disk).0 ≡ ok (answer libraries true))
    ↔ ((check_config libraries config disk).0 ≡ ok (true, "ok"))
health-agrees_example = health-agrees libraries config disk (λ v h. refl)
