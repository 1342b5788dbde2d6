-- ===== src/Store/Calls.antt =====
-- Any sequence of calls of the store's methods, by one process or by several that share the file:
-- `BEGIN IMMEDIATE` lets one transaction run at a time, so an interleaving is a sequence. A process
-- that dies inside a transaction leaves the database as it was, as a call that raises does.
pub mod Steps
pub mod Found
use nexguard_sentinel.Prelude.{
  String, Bool, true, false, Option, none, some, List, [], ◌∷◌, ℤ, ◌≡◌, refl, ℕ, ◌≢◌, ◌⊎◌, inl, inr,
  ◌<◌,
}
use nexguard_sentinel.Python.Exec.{Result, ok}
use nexguard_sentinel.Python.Text.{codes}
use nexguard_sentinel.Sql.{find, integer_limit}
use nexguard_sentinel.Store.Rows.{
  Status, Db, Event, Intent, intent_key, is_reserved, is_prepared, empty,
}
use nexguard_sentinel.Store.Intake
use nexguard_sentinel.Store.Intake.Outcomes.{IsIngested}
use nexguard_sentinel.Store.Reserve
use nexguard_sentinel.Store.Reserve.Exactly.{IsReservable}
use nexguard_sentinel.Store.Reserve.Writes.{reserved_db}
use nexguard_sentinel.Store.Lifecycle
use nexguard_sentinel.Store.Lifecycle.{check_finish, is_hash_shaped, outcome_status}
use nexguard_sentinel.Store.Lifecycle.Outcomes.{prepared_db, broadcast_db, finished_db, found_in}

-- A call of a method that writes, with its arguments and its readings of the clock.
pub data Call : Type 0 where
  ingest : String → String → ℤ → ℤ → String → Call
  reserve : String → String → List String → String → String → Call
  prepare : String → ℤ → String → String → Call
  broadcast : String → String → String → Call
  finish : String → String → String → String → Call

-- The database that a call leaves.
unfoldable pub run : Call → Db → Db
run (Call.ingest source event_id sequence block payload) db =
    (Intake.ingest source event_id sequence block payload db).1
run (Call.reserve intent incident events now at) db =
    (Reserve.reserve intent incident events now at db).1
run (Call.prepare intent nonce fee_data at) db = (Lifecycle.prepare intent nonce fee_data at db).1
run (Call.broadcast intent tx_hash at) db = (Lifecycle.broadcast intent tx_hash at db).1
run (Call.finish intent outcome evidence at) db = (Lifecycle.finish intent outcome evidence at db).1

-- The database that a sequence of calls leaves.
unfoldable pub runs : List Call → Db → Db
runs [] db = db
runs (c ∷ calls) db = runs calls (run c db)

-- The steps that a database can take: a call that writes nothing, or one that writes all it has to,
-- with what it has tested.
pub data Step (db db' : Db) : Type 0 where
  stay : db' ≡ db → Step db db'
  ingested : (event : Event) (n : ℕ) → IsIngested event n db db' → Step db db'
  reserved :
      (intent incident : String) (events : List String) (now at : String)
      → IsReservable intent incident events db
      → db' ≡ reserved_db intent incident events now at db
      → Step db db'
  prepared :
      (intent : String) (nonce : ℕ) (fee_data at : String)
      → found_in is_reserved (find intent_key intent db.intents) ≡ true
      → nonce < integer_limit
      → db' ≡ prepared_db intent nonce fee_data at db
      → Step db db'
  broadcast :
      (intent tx_hash at : String)
      → found_in is_prepared (find intent_key intent db.intents) ≡ true
      → is_hash_shaped (codes tx_hash) ≡ true
      → db' ≡ broadcast_db intent tx_hash at db
      → Step db db'
  finished :
      (intent : String) (status : Status) (outcome evidence at : String)
      → outcome_status outcome ≡ some status
      → evidence ≢ ""
      → check_finish (find intent_key intent db.intents) status ≡ ok tt
      → db' ≡ finished_db intent status outcome evidence at db
      → Step db db'
