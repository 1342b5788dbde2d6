-- ===== src/Store/Reserve/Writes.antt =====
-- What a reservation writes, as one database, and when it is written.
use nexguard_sentinel.Prelude.{
  String, true, false, List, [], ◌∷◌, string_eq, All, has_duplicates, contains, ◌≡◌, refl, arith,
}
use nexguard_sentinel.Python.Exec.{ok, err, integrity_error}
use nexguard_sentinel.Sql.{has, insert}
use nexguard_sentinel.Sql.Laws.{has_self, insert_fresh, insert_taken}
use nexguard_sentinel.Store.Rows.{
  array, Db, Incident, Intent, IntentEvent, event_key, incident_key, intent_key, owner_key,
}
use nexguard_sentinel.Store.Reserve.{
  add_audit, check_events, insert_incident, insert_intent, insert_owner, insert_owners, new_intent,
  write_reservation,
}

-- The rows of `intent_events` after the events are owned.
abbrev pub add_owners : String → List String → List IntentEvent → List IntentEvent
add_owners intent [] rows = rows
add_owners intent (event ∷ events) rows =
    add_owners intent events ((record { event_id = event; intent_id = intent }) ∷ rows)

abbrev pub with_owners : String → List String → Db → Db
with_owners intent events db = record db {
  intent_events = add_owners intent events db.intent_events;
}

-- The database after a reservation.
abbrev pub reserved_db : String → String → List String → String → String → Db → Db
reserved_db intent incident events now at db =
    add_audit intent "reserved" "storage exclusivity passed; policy is external" at (record db {
      incidents =
          (record { id = incident; created_at = now; source_ids = array events }) ∷ db.incidents;
      intents = new_intent intent incident now ∷ db.intents;
      intent_events = add_owners intent events db.intent_events;
    })

-- Each event is known, and no intent owns it.
abbrev pub AreFree : List String → Db → Type 0
AreFree events db =
    All (λ e. (has owner_key e db.intent_events ≡ false) × (has event_key e db.events ≡ true))
      events

pub check_events-AreFree :
    (events : List String) (db : Db) → check_events events db ≡ ok true → AreFree events db
unfolding check_events
check_events-AreFree [] db h = tt
check_events-AreFree (e ∷ events) db h = ground (arith, check_events-AreFree events db)

AreFree-owned :
    (intent e : String) (events : List String) (db : Db)
    → contains events e ≡ false
    → AreFree events db
    → AreFree events (with_owners intent (e ∷ []) db)
unfolding has
AreFree-owned intent e [] db h free = tt
AreFree-owned intent e (x ∷ events) db h free = ground (arith, AreFree-owned intent e events db)

insert_owner-free :
    (intent e : String) (db : Db)
    → has owner_key e db.intent_events ≡ false
    → has event_key e db.events ≡ true
    → has intent_key intent db.intents ≡ true
    → insert_owner (record { event_id = e; intent_id = intent }) db
      ≡ (ok tt, with_owners intent (e ∷ []) db)
unfolding insert_owner insert
insert_owner-free intent e db fresh known owner = rw (known, owner, fresh)

-- Free events that are all different are owned one after the other.
insert_owners-free :
    (intent : String) (events : List String) (db : Db)
    → has_duplicates events ≡ false
    → AreFree events db
    → has intent_key intent db.intents ≡ true
    → insert_owners intent events db ≡ (ok tt, with_owners intent events db)
unfolding insert_owners
insert_owners-free intent [] db h free owner = refl
insert_owners-free intent (e ∷ events) db h ((fresh, known), free) owner =
    rw (insert_owner-free intent e db fresh known owner) (
      insert_owners-free intent events (with_owners intent (e ∷ []) db) (ground arith)
        (AreFree-owned intent e events db (ground arith) free) owner)

insert_incident-fresh :
    (i : Incident) (db : Db)
    → has incident_key i.id db.incidents ≡ false
    → insert_incident i db ≡ (ok tt, record db { incidents = i ∷ db.incidents })
unfolding insert_incident
insert_incident-fresh i db h = rw (insert_fresh incident_key i db.incidents h)

insert_intent-fresh :
    (i : Intent) (db : Db)
    → has incident_key i.incident_id db.incidents ≡ true
    → has intent_key i.id db.intents ≡ false
    → insert_intent i db ≡ (ok tt, record db { intents = i ∷ db.intents })
unfolding insert_intent
insert_intent-fresh i db known h = rw (known, insert_fresh intent_key i db.intents h)

module _ (intent incident : String) (events : List String) (now at : String) (db : Db) where
  abbrev incident_row : Incident
  incident_row = record { id = incident; created_at = now; source_ids = array events }

  abbrev with_rows : Db
  with_rows = record db {
    incidents = incident_row ∷ db.incidents;
    intents = new_intent intent incident now ∷ db.intents;
  }

  pub write_reservation-taken :
      has incident_key incident db.incidents ≡ true
      → (write_reservation intent incident events now at db).0 ≡ err integrity_error
  unfolding write_reservation insert_incident
  write_reservation-taken taken = rw (insert_taken incident_key incident_row db.incidents taken)

  pub write_reservation-free :
      has incident_key incident db.incidents ≡ false
      → has intent_key intent db.intents ≡ false
      → has_duplicates events ≡ false
      → AreFree events db
      → write_reservation intent incident events now at db
        ≡ (ok true, reserved_db intent incident events now at db)
  unfolding write_reservation
  write_reservation-free new_incident fresh h free = rw (
    insert_incident-fresh incident_row db new_incident,
    insert_intent-fresh (new_intent intent incident now)
        (record db { incidents = incident_row ∷ db.incidents })
        (has_self incident_key incident_row db.incidents) fresh,
    insert_owners-free intent events with_rows h free
        (has_self intent_key (new_intent intent incident now) db.intents),
  )
