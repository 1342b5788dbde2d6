-- ===== src/Store/Calls/Found.antt =====
-- What a lookup of an intent finds after each step.
use nexguard_sentinel.Prelude.{
  ℕ, String, Option, some, List, [], ◌∷◌, ◌==◌, string_eq, if◌then◌else◌, ◌≡◌, ap, ◌∙◌, refl, arith,
}
use nexguard_sentinel.Sql.{find, Unique}
use nexguard_sentinel.Sql.Laws.{find-update, Unique-update, map_if}
use nexguard_sentinel.Store.Rows.{Status, Db, Event, Intent, intent_key, empty}
use nexguard_sentinel.Store.Intake.{put_cursor}
use nexguard_sentinel.Store.Intake.Outcomes.{ingested_db}
use nexguard_sentinel.Store.Reserve.{add_audit, new_intent}
use nexguard_sentinel.Store.Reserve.Writes.{reserved_db}
use nexguard_sentinel.Store.Lifecycle.{
  reserved_row, prepared_row, set_prepared, set_broadcast, set_outcome,
}
use nexguard_sentinel.Store.Lifecycle.Outcomes.{
  prepared_db, broadcast_db, finished_db, intents-after_writes,
}
use nexguard_sentinel.Store.Calls.{
  Step, stay, ingested, reserved, prepared, finished, Call, run, runs,
}
use nexguard_sentinel.Store.Calls.Steps.{run-Step}

abbrev pub row : String → Db → Option Intent
row i db = find intent_key i db.intents

pub intents-ingested :
    (event : Event) (n : ℕ) (db : Db) → (ingested_db event n db).intents ≡ db.intents
unfolding put_cursor
intents-ingested event n db = ground arith

module _ (i : String) (db : Db) where
  pub row-ingested : (event : Event) (n : ℕ) → row i (ingested_db event n db) ≡ row i db
  row-ingested event n = ap (find intent_key i) (intents-ingested event n db)

  pub row-reserved :
      (intent incident : String) (events : List String) (now at : String)
      → row i (reserved_db intent incident events now at db)
        ≡ (if intent == i then some (new_intent intent incident now) else row i db)
  unfolding find add_audit
  row-reserved intent incident events now at = refl

  pub row-prepared :
      (intent : String) (nonce : ℕ) (fee_data at : String)
      → row i (prepared_db intent nonce fee_data at db)
        ≡ map_if (reserved_row intent) (set_prepared nonce fee_data) (row i db)
  unfolding add_audit
  row-prepared intent nonce fee_data at =
      find-update intent_key (reserved_row intent) (set_prepared nonce fee_data) i db.intents
        (λ r. refl)

  pub row-broadcast :
      (intent tx_hash at : String)
      → row i (broadcast_db intent tx_hash at db)
        ≡ map_if (prepared_row intent) (set_broadcast tx_hash) (row i db)
  unfolding add_audit
  row-broadcast intent tx_hash at =
      find-update intent_key (prepared_row intent) (set_broadcast tx_hash) i db.intents (λ r. refl)

  pub row-finished :
      (intent : String) (status : Status) (outcome evidence at : String)
      → row i (finished_db intent status outcome evidence at db)
        ≡ map_if (λ r. r.id == intent) (set_outcome status evidence) (row i db)
  row-finished intent status outcome evidence at =
      ap (find intent_key i) (intents-after_writes intent outcome evidence at status _)
      ∙ find-update intent_key (λ (r : Intent). r.id == intent) (set_outcome status evidence) i
          db.intents (λ r. refl)

-- The ids of intents stay unique.
pub Step-Unique :
    {db db' : Db} → Step db db' → Unique intent_key db.intents → Unique intent_key db'.intents
unfolding add_audit
Step-Unique (stay e) u = rw e u
Step-Unique {db} (ingested event n h) u = rw (h.written, intents-ingested) u
Step-Unique (reserved intent incident events now at h e) u = rw e (h.new_intent, u)
Step-Unique {db} (prepared intent nonce fee_data at f small e) u = rw e (
    Unique-update intent_key (reserved_row intent) (set_prepared nonce fee_data) db.intents
      (λ r. refl) u)
Step-Unique {db} (Step.broadcast intent tx_hash at f shaped e) u = rw e (
    Unique-update intent_key (prepared_row intent) (set_broadcast tx_hash) db.intents (λ r. refl) u)
Step-Unique {db} (finished intent status outcome evidence at known given f e) u =
    rw (e, intents-after_writes)
      (Unique-update intent_key (λ (r : Intent). r.id == intent) (set_outcome status evidence)
        db.intents (λ r. refl) u)

-- An invariant of the steps holds after any calls.
pub runs_induction :
    (P : Db → Type 0)
    → ((db db' : Db) → Step db db' → P db → P db')
    → (calls : List Call) (db : Db) → Unique intent_key db.intents
    → P db
    → P (runs calls db)
unfolding runs
runs_induction P keep [] db u h = h
runs_induction P keep (c ∷ calls) db u h =
    let step = run-Step c db u in
    runs_induction P keep calls (run c db) (Step-Unique step u) (keep db (run c db) step h)

-- From a new database on, the ids of intents are unique.
pub runs-Unique : (calls : List Call) → Unique intent_key (runs calls empty).intents
runs-Unique calls =
    runs_induction (λ db. Unique intent_key db.intents) (λ db db' s u. Step-Unique s u) calls empty
      tt tt
