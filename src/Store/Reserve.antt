-- ===== src/Store/Reserve.antt =====
-- `StateStore.reserve`.
pub mod Writes
pub mod Exactly
use nexguard_sentinel.Prelude.{
  ℕ, String, Bool, true, false, not, ◌||◌, Option, none, some, List, [], ◌∷◌, ◌==◌, string_eq,
  has_duplicates, if◌then◌else◌,
}
use nexguard_sentinel.Python.Exec.{
  Result, ok, err, value_error, integrity_error, Exec, pure, raise, lift, gets, modify, ◌>>=◌, ◌>>◌,
  transaction,
}
use nexguard_sentinel.Sql.{has, insert, exists, next_id}
use nexguard_sentinel.Store.Rows.{
  Status, Json, array, Db, Incident, Intent, IntentEvent, Audit, event_key, incident_key,
  intent_key, owner_key, is_unfinished,
}

-- `_audit`
unfoldable pub add_audit : String → String → String → String → Db → Db
add_audit intent transition detail at db = record db {
  audit =
      (record {
        id = next_id (λ (a : Audit). a.id) db.audit;
        at = at;
        intent_id = intent;
        transition = transition;
        detail = detail;
      })
      ∷ db.audit;
}

abbrev pub is_latch_set : Option String → Bool
is_latch_set none = false
is_latch_set (some _) = true

abbrev pub has_unfinished : List Intent → Bool
has_unfinished = exists (λ (i : Intent). is_unfinished i.status)

-- The loop over the source events: `ok false` leaves the method with False.
unfoldable pub check_events : List String → Db → Result Bool
check_events [] db = ok true
check_events (event ∷ events) db =
    let rest = check_events events db in
    if has owner_key event db.intent_events
    then ok false
    else if has event_key event db.events
    then rest
    else err (value_error "Cannot reserve an unknown event")

abbrev pub insert_incident_rows : Result (List Incident) → Exec Db (Unit {0})
insert_incident_rows (ok rows) db = (ok tt, record db { incidents = rows })
insert_incident_rows (err e) db = (err e, db)

-- INSERT INTO incidents
unfoldable pub insert_incident : Incident → Exec Db (Unit {0})
insert_incident i db = insert_incident_rows (insert incident_key i db.incidents) db

abbrev pub insert_intent_rows : Result (List Intent) → Exec Db (Unit {0})
insert_intent_rows (ok rows) db = (ok tt, record db { intents = rows })
insert_intent_rows (err e) db = (err e, db)

-- INSERT INTO intents, whose incident must exist
unfoldable pub insert_intent : Intent → Exec Db (Unit {0})
insert_intent i db =
    if has incident_key i.incident_id db.incidents
    then insert_intent_rows (insert intent_key i db.intents) db
    else (err integrity_error, db)

abbrev pub insert_owner_rows : Result (List IntentEvent) → Exec Db (Unit {0})
insert_owner_rows (ok rows) db = (ok tt, record db { intent_events = rows })
insert_owner_rows (err e) db = (err e, db)

-- INSERT INTO intent_events, whose event and intent must exist
unfoldable pub insert_owner : IntentEvent → Exec Db (Unit {0})
insert_owner o db =
    if has event_key o.event_id db.events
    then (if has intent_key o.intent_id db.intents
        then insert_owner_rows (insert owner_key o db.intent_events) db
        else (err integrity_error, db))
    else (err integrity_error, db)

-- `executemany`
unfoldable pub insert_owners : String → List String → Exec Db (Unit {0})
insert_owners intent [] = pure tt
insert_owners intent (event ∷ events) = do
  insert_owner (record { event_id = event; intent_id = intent })
  insert_owners intent events

abbrev pub new_intent : String → String → String → Intent
new_intent intent incident now = record {
  id = intent;
  incident_id = incident;
  status = Status.reserved;
  created_at = now;
  nonce = none;
  tx_hash = none;
  fee_data = none;
  outcome_evidence = none;
}

-- The writes of a reservation, once the reads allow it.
unfoldable pub write_reservation : String → String → List String → String → String → Exec Db Bool
write_reservation intent incident event_ids now at = do
  insert_incident (record { id = incident; created_at = now; source_ids = array event_ids })
  insert_intent (new_intent intent incident now)
  insert_owners intent event_ids
  modify (add_audit intent "reserved" "storage exclusivity passed; policy is external" at)
  pure true

-- The reads: whether the reservation may be written.
unfoldable pub may_reserve : String → List String → Db → Result Bool
may_reserve intent event_ids db =
    if is_latch_set db.latch || has_unfinished db.intents
    then ok false
    else if has intent_key intent db.intents
    then ok false
    else check_events event_ids db

unfoldable pub reserve_body : String → String → List String → String → String → Exec Db Bool
reserve_body intent incident event_ids now at db =
    (do
      allowed ← lift (may_reserve intent event_ids db)
      if allowed then write_reservation intent incident event_ids now at else pure false)
      db

abbrev pub is_empty : List String → Bool
is_empty [] = true
is_empty (_ ∷ _) = false

-- `now` and `at` are the two readings of the clock.
unfoldable pub reserve : String → String → List String → String → String → Exec Db Bool
reserve intent incident event_ids now at =
    if intent == "" || incident == "" || is_empty event_ids || has_duplicates event_ids
    then raise (value_error "A reservation requires unique source events and stable IDs")
    else transaction (reserve_body intent incident event_ids now at)
