-- ===== src/Controller/Application/Start.antt =====
-- When the application starts.
use nexguard_sentinel.Prelude.{
  false, Bool, ◌||◌, is_negative, ◌<◌, leb, String, [], ◌≡◌, none, some, ℤ, pos_part,
}
use nexguard_sentinel.Python.Exec.{Exception, Result, ok, err, Exec}
use nexguard_sentinel.Python.Text.{Text}
use nexguard_sentinel.Python.Gives.{Gives}
use nexguard_sentinel.Python.Environ.{Environment}
use nexguard_sentinel.Disk.{Bytes, Disk}
use nexguard_sentinel.Controller.Backup.Create.{Manifest}
use nexguard_sentinel.Controller.Config.{Libraries}
use nexguard_sentinel.Controller.Incident
use nexguard_sentinel.Controller.Recovery
use nexguard_sentinel.Controller.Settings.{Settings, from_env}
use nexguard_sentinel.Controller.Service.{Machine}
use nexguard_sentinel.Controller.Service.Assembly.{new_runtime}
use nexguard_sentinel.Controller.Application.{Started, started, health}

-- What the constructors ask of the settings.
pub record IsStartable (S : Settings ℤ) : Type 0 where
  pub threshold : 0 < pos_part S.failure_threshold
  pub cooldown : is_negative S.recovery_cooldown ≡ false
  pub recoveries : 0 < pos_part S.max_recoveries
  pub window : 0 < pos_part S.recovery_window
  pub wait : is_negative S.restart_wait ≡ false

abbrev bad_windows : Settings ℤ → Bool
bad_windows S = leb (pos_part S.recovery_window) 0 || is_negative S.restart_wait

module _ (M : Machine) (sha256 : Bytes → Text) (L : Libraries) (manifest_json : Manifest → Bytes)
    (float : Text → Result ℤ) (docker_from_env : Exec M.World (Unit {0})) where
  abbrev A : Type 0
  A = Started M sha256 L manifest_json float docker_from_env

  abbrev new : Settings ℤ → Disk → M.World → Result A
  new S disk w =
      started M sha256 L manifest_json float docker_from_env S
        (new_runtime M S sha256 L manifest_json disk w)

  abbrev answer : A → String
  answer a = health M sha256 L manifest_json float docker_from_env (some a)

  -- The runtime is there, or the settings are refused.
  data Made (S : Settings ℤ) (r : Result A) : Type 0 where
    made : IsStartable S → (a : A) → r ≡ ok a → a.settings ≡ S → answer a ≡ "ready" → Made S r
    refused : ¬ IsStartable S → (e : Exception) → r ≡ err e → Made S r

  -- The runtime that the constructor makes with this incident manager.
  abbrev fresh : Settings ℤ → Incident.IncidentManager → Disk → M.World → A
  fresh S m disk w = record {
    settings = S;
    runtime = record {
      incidents = m;
      recovery = record {
        status = Recovery.ready;
        attempts = [];
        last_attempt = none;
        disk = disk;
        world = record { world = w; docker_log = []; health_log = [] };
        log = [];
      };
      last_backup = none;
      gateway_up = 0;
      config_integrity = 0;
      last_backup_timestamp = 0;
      recoveries_total = 0;
      messages = [];
      log = [];
    };
  }

  abbrev Answered : Environment → A → Type 0
  Answered env a =
      (from_env float env ≡ ok a.settings) × IsStartable a.settings × (answer a ≡ "ready")
