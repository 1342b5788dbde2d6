-- ===== src/Controller/Runtime/Quiet.antt =====
-- When the runtime does not start a recovery.
use nexguard_sentinel.Prelude.{
  ℕ, String, Bool, true, false, not, ◌||◌, Option, none, some, if◌then◌else◌, ℤ, ◌≡◌, refl, ◌∙◌,
  arith, ◌⊎◌, inl, inr,
}
use nexguard_sentinel.Python.Exec.{Result, ok, err, ◌>>=◌, pure, lift, is_read_error}
use nexguard_sentinel.Python.Text.{Text}
use nexguard_sentinel.Controller.Incident
use nexguard_sentinel.Controller.Incident.{is_some, record_failure}
use nexguard_sentinel.Disk.{Bytes, Disk, FilePath, lookup, read_file}
use nexguard_sentinel.Disk.Post.{Split, Post, Post-bind, handle-Post}
use nexguard_sentinel.Disk.Calls.{SameFiles, read_file-Post}
use nexguard_sentinel.Controller.Backup.{is_missing, decoded}
use nexguard_sentinel.Controller.Backup.Create.{Manifest}
use nexguard_sentinel.Controller.Config.{
  Libraries, Source, contents, unread, read_text, read_source, on_text, check_config,
  check_config_text,
}
use nexguard_sentinel.Controller.Recovery.{
  Operations, Settings, HealthResult, is_manual, manual_intervention_required,
}
use nexguard_sentinel.Controller.Recovery.Kept.{fields}
use nexguard_sentinel.Controller.Runtime.{
  Clock, Runtime, with_disk, announce, respond, on_unhealthy, after_check, handle_health_result,
}

module _ (L : Libraries) (p : FilePath) (s : Disk) where
  abbrev Same : {A : Type 0} → A → Disk → Type 0
  Same _ t = SameFiles s t

  result-Same :
      {A : Type 0} (r : Result A) (t : Disk) → SameFiles s t → Split {A = A} Same (SameFiles s) r t
  result-Same (ok a) t e = e
  result-Same (err x) t e = e

  read_text-Same : Post (read_text L p) s Same (SameFiles s)
  read_text-Same =
      Post-bind (λ f u. (lookup p s.files ≡ some f) × SameFiles s u) Same (SameFiles s)
        (read_file p) (λ file. lift (decoded (L.utf8 file.contents))) s (read_file-Post s s refl p)
        (λ f t h. result-Same (decoded (L.utf8 f.contents)) t h.1)

  read_source-Same : Post (read_source L p) s Same (SameFiles s)
  unfolding read_source
  read_source-Same =
      handle-Post Same (SameFiles s) (SameFiles s) (read_text L p >>= λ t. pure (contents t))
        is_read_error (λ e. pure (unread (if is_missing e then "file_not_found" else "read_error")))
        s
        (Post-bind Same Same (SameFiles s) (read_text L p) (λ t. pure (contents t)) s read_text-Same
          (λ x t e. e))
        (λ t e. e) (λ x t e. e)

  on_text-Same :
      (check : Text → Result (Bool × String)) (x : Source L) (t : Disk)
      → SameFiles s t
      → Post (on_text L check x) t Same (SameFiles s)
  on_text-Same check (contents c) t e = result-Same (check c) t e
  on_text-Same check (unread reason) t e = e

  -- The check of the configuration changes no file.
  check_config-Same : Post (check_config L p) s Same (SameFiles s)
  unfolding check_config
  check_config-Same =
      Post-bind Same Same (SameFiles s) (read_source L p) (on_text L (check_config_text L)) s
        read_source-Same (λ x t e. on_text-Same (check_config_text L) x t e)

  files-of_Split :
      {A : Type 0} (r : Result A) (t : Disk) → Split {A = A} Same (SameFiles s) r t → SameFiles s t
  files-of_Split (ok a) t h = h
  files-of_Split (err e) t h = h

module _ (O : Operations) (sha256 : Bytes → Text) (S : Settings) (L : Libraries)
    (manifest_json : Manifest → Bytes) (backup_interval : ℕ) (backup_retention : ℤ) where
  abbrev R : Type 0
  R = Runtime O sha256 S L manifest_json backup_interval backup_retention

  -- No recovery was started and no backup was made.
  pub record Quiet (r r' : R) : Type 0 where
    pub same_fields : fields O sha256 S r'.recovery ≡ fields O sha256 S r.recovery
    pub same_world : r'.recovery.world ≡ r.recovery.world
    pub same_files : r'.recovery.disk.files ≡ r.recovery.disk.files
    pub same_backup : r'.last_backup ≡ r.last_backup
    pub same_total : r'.recoveries_total ≡ r.recoveries_total

  abbrev handled : Clock → HealthResult → R → Result (Option (Unit {0})) × R
  handled t health r =
      handle_health_result O sha256 S L manifest_json backup_interval backup_retention t health r

  abbrev said : Option Incident.Incident → R → R
  said = announce O sha256 S L manifest_json backup_interval backup_retention

  abbrev answer : Clock → Bool → String → R → R
  answer t valid why r =
      (respond O sha256 S L manifest_json backup_interval backup_retention t valid why r).1

  respond-Quiet :
      (t : Clock) (valid : Bool) (why : String) (o : Option Incident.Incident) (r : R)
      → (not (is_some r.incidents.current_incident) || is_manual r.recovery.status) ≡ true
      → Quiet r (answer t valid why (said o r))
  unfolding respond
  respond-Quiet t valid why none r h =
      rw (h, answer)
        (record {
          same_fields = refl;
          same_world = refl;
          same_files = refl;
          same_backup = refl;
          same_total = refl;
        })
  respond-Quiet t valid why (some i) r h =
      rw (h, answer)
        (record {
          same_fields = refl;
          same_world = refl;
          same_files = refl;
          same_backup = refl;
          same_total = refl;
        })

  Quiet-after :
      (before r r' : R)
      → fields O sha256 S r.recovery ≡ fields O sha256 S before.recovery
      → r.recovery.world ≡ before.recovery.world
      → r.recovery.disk.files ≡ before.recovery.disk.files
      → r.last_backup ≡ before.last_backup
      → r.recoveries_total ≡ before.recoveries_total
      → Quiet r r'
      → Quiet before r'
  Quiet-after before r r' a b c d e q = record {
    same_fields = q.same_fields ∙ a;
    same_world = q.same_world ∙ b;
    same_files = q.same_files ∙ c;
    same_backup = q.same_backup ∙ d;
    same_total = q.same_total ∙ e;
  }

  -- No incident is open once the failure has been counted, or the recovery has asked for manual
  -- intervention.
  abbrev pub IsHeld : Clock → String → R → Type 0
  IsHeld t reason r =
      (is_some (record_failure reason t.opened_utc t.new_id r.incidents).1.current_incident ≡ false)
      ⊎ (r.recovery.status ≡ manual_intervention_required)

  held-test :
      (t : Clock) (reason : String) (r : R)
      → IsHeld t reason r
      → (not (is_some (record_failure reason t.opened_utc t.new_id r.incidents).1.current_incident)
          || is_manual r.recovery.status)
        ≡ true
  held-test t reason r (inl h) = rw h refl
  held-test t reason r (inr h) = ground arith

  abbrev checked_disk : Disk → ℕ → R → R
  checked_disk d up r =
      with_disk O sha256 S L manifest_json backup_interval backup_retention d
        (record r { gateway_up = up })

  -- The failure has been counted.
  abbrev counted : Clock → String → Bool → Disk → R → R
  counted t reason valid d r = record (checked_disk d 0 r) {
    config_integrity = if valid then 1 else 0;
    incidents = (record_failure reason t.opened_utc t.new_id r.incidents).1;
  }

  after_check-Quiet :
      (t : Clock) (health : HealthResult) (r : R) (checked : Result (Bool × String)) (d : Disk)
      → health.is_ok ≡ false
      → IsHeld t health.reason r
      → SameFiles r.recovery.disk d
      → Quiet r
          (after_check O sha256 S L manifest_json backup_interval backup_retention t health checked
            (checked_disk d (if health.is_ok then 1 else 0) r)).1
  unfolding after_check on_unhealthy
  after_check-Quiet t health r (err e) d bad held same = record {
    same_fields = refl;
    same_world = refl;
    same_files = same;
    same_backup = refl;
    same_total = refl;
  }
  after_check-Quiet t health r (ok (valid, why)) d bad held same = rw bad (
      Quiet-after r (counted t health.reason valid d r) _ refl refl same refl refl (
        respond-Quiet t valid why (record_failure health.reason t.opened_utc t.new_id r.incidents).0
          (counted t health.reason valid d r) (held-test t health.reason r held)))

  -- A failed health check starts no recovery and makes no backup, as long as no incident is open
  -- once the failure has been counted, or after the recovery has asked for manual intervention: the
  -- recovery's fields, the world of its operations, the files and the count of recoveries are as
  -- before. This holds whatever the check of the configuration returns or raises.
  pub handle_health_result-Quiet :
      (t : Clock) (health : HealthResult) (r : R)
      → health.is_ok ≡ false
      → IsHeld t health.reason r
      → Quiet r (handled t health r).1
  unfolding handle_health_result
  handle_health_result-Quiet t health r bad held = after_check-Quiet t health r _ _ bad held (
      files-of_Split L S.config_path r.recovery.disk _ _
        (check_config-Same L S.config_path r.recovery.disk))
