-- ===== src/Store/Guarantees/Ownership.antt =====
-- Source events: each is acted on by one intent at most, and stays with it.
use nexguard_sentinel.Prelude.{
  ℕ, String, true, false, Option, some, List, [], ◌∷◌, string_eq, contains, ◌≡◌, refl, ◌∙◌, arith,
  ◌≢◌, inl, inr, Bool-cases,
}
use nexguard_sentinel.Python.Exec.{ok}
use nexguard_sentinel.Sql.{find, has, Unique}
use nexguard_sentinel.Sql.Laws.{has-eq-is_found}
use nexguard_sentinel.Store.Rows.{Status, Db, Event, IntentEvent, owner_key, intent_key, empty}
use nexguard_sentinel.Store.Intake.{put_cursor}
use nexguard_sentinel.Store.Intake.Outcomes.{ingested_db}
use nexguard_sentinel.Store.Reserve.{add_audit, reserve}
use nexguard_sentinel.Store.Reserve.Writes.{add_owners, AreFree}
use nexguard_sentinel.Store.Reserve.Exactly.{reserve-IsReservable, reserve-of_IsReservable}
use nexguard_sentinel.Store.Lifecycle.{set_latch}
use nexguard_sentinel.Store.Lifecycle.Outcomes.{finished_db}
use nexguard_sentinel.Store.Calls.{
  Step, stay, ingested, reserved, prepared, finished, Call, run, runs,
}
use nexguard_sentinel.Store.Calls.Found.{runs_induction, runs-Unique, Step-Unique}
use nexguard_sentinel.Store.Calls.Steps.{run-Step}

-- The row that gives the owner of an event.
abbrev pub owner : String → Db → Option IntentEvent
owner e db = find owner_key e db.intent_events

-- The owner of an event after its reservation.
owner-add_owners :
    (intent e : String) (events : List String) (rows : List IntentEvent)
    → contains events e ≡ false
    → find owner_key e (add_owners intent events rows) ≡ find owner_key e rows
unfolding find
owner-add_owners intent e [] rows h = refl
owner-add_owners intent e (x ∷ events) rows h =
    owner-add_owners intent e events _ (ground arith) ∙ ground arith

owned-add_owners :
    (intent e : String) (events : List String) (rows : List IntentEvent)
    → contains events e ≡ true
    → find owner_key e (add_owners intent events rows)
      ≡ some (record { event_id = e; intent_id = intent })
unfolding find
owned-add_owners intent e [] rows h = cc
owned-add_owners intent e (x ∷ events) rows h = elim (Bool-cases (contains events e)) [
  | inl later ↦ owned-add_owners intent e events _ later
  | inr never ↦ owner-add_owners intent e events _ never ∙ ground arith
]

free-not_owned :
    (e : String) (events : List String) (db : Db)
    → AreFree events db
    → contains events e ≡ true
    → has owner_key e db.intent_events ≡ false
free-not_owned e [] db free h = cc
free-not_owned e (x ∷ events) db free h = ground (arith, free-not_owned e events db)

owners-ingested :
    (event : Event) (n : ℕ) (db : Db) → (ingested_db event n db).intent_events ≡ db.intent_events
unfolding put_cursor
owners-ingested event n db = ground arith

owners-finished :
    (intent outcome evidence at : String) (status : Status) (db : Db)
    → (finished_db intent status outcome evidence at db).intent_events ≡ db.intent_events
unfolding add_audit set_latch
owners-finished intent outcome evidence at status db = ground arith

-- What owns an event goes on owning it.
Step-owner :
    (e : String) (o : IntentEvent) (db db' : Db)
    → Step db db'
    → owner e db ≡ some o
    → owner e db' ≡ some o
unfolding add_audit
Step-owner e o db db' (stay x) h = rw x h
Step-owner e o db db' (ingested event n w) h = rw (w.written, owners-ingested) h
Step-owner e o db db' (reserved intent incident events now at needs x) h =
    elim (Bool-cases (contains events e)) [
      | inr other ↦ rw (x, owner-add_owners intent e events db.intent_events other) h
      | inl mine ↦ ground (
        arith,
        free-not_owned e events db needs.free mine,
        has-eq-is_found owner_key e db.intent_events,
      )
    ]
Step-owner e o db db' (prepared intent nonce fee_data at found small x) h = rw x h
Step-owner e o db db' (Step.broadcast intent tx_hash at found shaped x) h = rw x h
Step-owner e o db db' (finished intent status outcome evidence at known given checked x) h =
    rw (x, owners-finished) h

-- What a reservation that returns True leaves for each of its events.
owner-reserve :
    (intent incident : String) (events : List String) (now at e : String) (db : Db)
    → (reserve intent incident events now at db).0 ≡ ok true
    → contains events e ≡ true
    → owner e (reserve intent incident events now at db).1
      ≡ some (record { event_id = e; intent_id = intent })
unfolding add_audit
owner-reserve intent incident events now at e db success mine =
    let needs = reserve-IsReservable intent incident events now at db success in
    rw (reserve-of_IsReservable intent incident events now at db needs)
      (owned-add_owners intent e events db.intent_events mine)

Unique-reserve :
    (intent incident : String) (events : List String) (now at : String) (db : Db)
    → Unique intent_key db.intents
    → Unique intent_key (reserve intent incident events now at db).1.intents
unfolding run
Unique-reserve intent incident events now at db u =
    Step-Unique (run-Step (Call.reserve intent incident events now at) db u) u

-- The database after a successful reservation and further calls.
module _ (calls more : List Call) (intent incident : String) (events : List String)
    (now at : String) where
  abbrev after : Db
  after = runs more (reserve intent incident events now at (runs calls empty)).1

  -- An event of a reservation that returned True is owned by that intent from then on, whatever
  -- calls follow.
  pub reserve-owner :
      (e : String)
      → (reserve intent incident events now at (runs calls empty)).0 ≡ ok true
      → contains events e ≡ true
      → owner e after ≡ some (record { event_id = e; intent_id = intent })
  reserve-owner e success mine =
      runs_induction (λ db. owner e db ≡ some (record { event_id = e; intent_id = intent }))
        (λ db db' s h. Step-owner e _ db db' s h) more
        (reserve intent incident events now at (runs calls empty)).1
        (Unique-reserve intent incident events now at (runs calls empty) (runs-Unique calls))
        (owner-reserve intent incident events now at e (runs calls empty) success mine)

  -- Once a reservation has returned True, no later reservation that names one of its events returns
  -- True, whatever calls come in between and whatever became of the first intent.
  pub reserve-owned_twice :
      (e : String)
      → (reserve intent incident events now at (runs calls empty)).0 ≡ ok true
      → contains events e ≡ true
      → (intent' incident' : String) (events' : List String) (now' at' : String)
      → contains events' e ≡ true
      → (reserve intent' incident' events' now' at' after).0 ≢ ok true
  reserve-owned_twice e success mine intent' incident' events' now' at' again success' =
      let needs = reserve-IsReservable intent' incident' events' now' at' after success' in
      cc (
        reserve-owner e success mine,
        has-eq-is_found owner_key e after.intent_events,
        free-not_owned e events' after needs.free again,
      )
