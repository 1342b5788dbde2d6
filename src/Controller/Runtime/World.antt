-- ===== src/Controller/Runtime/World.antt =====
-- What the runtime keeps of the world, and that it is the recovery's doing.
use nexguard_sentinel.Prelude.{ℕ, ℤ, sym, subst}
use nexguard_sentinel.Python.Text.{Text}
use nexguard_sentinel.Disk.{Bytes}
use nexguard_sentinel.Controller.Backup.Create.{Manifest}
use nexguard_sentinel.Controller.Config.{Libraries}
use nexguard_sentinel.Controller.Recovery.{Operations, Settings, HealthResult, RecoveryManager}
use nexguard_sentinel.Controller.Recovery.World.{Frame, attempt_recovery-world}
use nexguard_sentinel.Controller.Runtime.{Clock, Runtime, handle_health_result}
use nexguard_sentinel.Controller.Runtime.Touches.{
  Touch, untouched, attempted, handle_health_result-Touch,
}

module _ (O : Operations) (sha256 : Bytes → Text) (S : Settings) (I : O.World → Type 0)
    (F : Frame O S I) where
  Touch-world :
      (now : ℕ) (m m' : RecoveryManager O sha256 S)
      → Touch O sha256 S now m m'
      → I m.world
      → I m'.world
  Touch-world now m m' (untouched e) i =
      subst (λ (x : RecoveryManager O sha256 S). I x.world) (sym e) i
  Touch-world now m m' (attempted valid d e) i =
      subst (λ (x : RecoveryManager O sha256 S). I x.world) (sym e)
        (attempt_recovery-world O sha256 S I F valid now (record m { disk = d }) i)

  pub handle_health_result-world :
      (L : Libraries) (manifest_json : Manifest → Bytes) (backup_interval : ℕ)
      (backup_retention : ℤ) (t : Clock) (health : HealthResult)
      (r : Runtime O sha256 S L manifest_json backup_interval backup_retention)
      → I r.recovery.world
      → I
          (handle_health_result O sha256 S L manifest_json backup_interval backup_retention t health
            r).1.recovery.world
  handle_health_result-world L manifest_json backup_interval backup_retention t health r i =
      Touch-world t.recovery_monotonic r.recovery _
        (handle_health_result-Touch O sha256 S L manifest_json backup_interval backup_retention t
          health r)
        i
