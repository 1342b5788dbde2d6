-- ===== src/Store/Intake/Outcomes.antt =====
-- `ingest` as one equation for each branch of the transaction.
use nexguard_sentinel.Prelude.{
  ℕ, String, Bool, true, false, Option, none, some, ◌∷◌, ◌<◌, string_eq, nat_eq, nats_eq,
  if◌then◌else◌, ◌≡◌, refl, ◌⊎◌, arith, ℤ, inl, inr,
}
use nexguard_sentinel.Python.Exec.{Exception, Result, ok, err}
use nexguard_sentinel.Python.Text.{Text}
use nexguard_sentinel.Python.Number.{str, int}
use nexguard_sentinel.Sql.{find, has, bind_integer, integer_limit}
use nexguard_sentinel.Sql.Laws.{insert_fresh}
use nexguard_sentinel.Store.Rows.{Db, Event, Cursor, event_key, cursor_key}
use nexguard_sentinel.Store.Intake.{exceeds, insert_event, put_cursor, advance, ingest_row}

abbrev pub cursor_of : Event → Cursor
cursor_of event = record {
  source = event.source;
  sequence = event.sequence;
  block_number = event.block_number;
}

-- Whether the cursor moves to a sequence.
abbrev pub moves_from : ℕ → Option ℤ → Bool
moves_from n none = false
moves_from n (some stored) = exceeds n stored

abbrev pub moves : ℕ → Option Cursor → Bool
moves n none = true
moves n (some old) = moves_from n (int 10 old.sequence)

-- The stored cursor, if there is one, can be read.
abbrev pub is_readable : Option Cursor → Bool
is_readable none = true
is_readable (some old) = elim (int 10 old.sequence) [ none ↦ false | some _ ↦ true ]

abbrev pub with_event : Event → Db → Db
with_event event db = record db { events = event ∷ db.events }

-- The database after a new event.
abbrev pub ingested_db : Event → ℕ → Db → Db
ingested_db event n db =
    if moves n (find cursor_key event.source db.cursors)
    then put_cursor (cursor_of event) (with_event event db)
    else with_event event db

advance_lem :
    (c : Cursor) (n : ℕ) (o : Option Cursor) (db : Db)
    → is_readable o ≡ true
    → advance c n o db ≡ (ok tt, if moves n o then put_cursor c db else db)
unfolding advance
advance_lem c n none db h = refl
advance_lem c n (some old) db h = ground arith

readable-of_advance :
    (c : Cursor) (n : ℕ) (o : Option Cursor) (db : Db)
    → (advance c n o db).0 ≡ ok tt
    → is_readable o ≡ true
unfolding advance
readable-of_advance c n none db h = refl
readable-of_advance c n (some old) db h = ground arith

insert_event-fresh :
    (event : Event) (db : Db)
    → has event_key event.id db.events ≡ false
    → insert_event event db ≡ (ok tt, with_event event db)
unfolding insert_event
insert_event-fresh event db h = rw (insert_fresh event_key event db.events h)

module _ (event : Event) (n : ℕ) (db : Db) (fresh : has event_key event.id db.events ≡ false) where
  pub ingest_row-new :
      event.block_number < integer_limit
      → is_readable (find cursor_key event.source db.cursors) ≡ true
      → ingest_row none event n db ≡ (ok true, ingested_db event n db)
  unfolding ingest_row bind_integer
  ingest_row-new small readable = ground (
    arith,
    insert_event-fresh event db fresh,
    advance_lem (cursor_of event) n (find cursor_key event.source db.cursors) (with_event event db)
        readable,
  )

  -- A new event is refused only for a block number that SQLite cannot hold or an unreadable cursor.
  pub ingest_row-ok :
      (b : Bool)
      → (ingest_row none event n db).0 ≡ ok b
      → (event.block_number < integer_limit)
        × (is_readable (find cursor_key event.source db.cursors) ≡ true)
  unfolding ingest_row bind_integer
  ingest_row-ok b h = ground (
    arith,
    insert_event-fresh event db fresh,
    readable-of_advance (cursor_of event) n (find cursor_key event.source db.cursors)
        (with_event event db),
  )

pub Result-cases {ℓ} :
    {A : Type ℓ} (r : Result A) → ((e : Exception) × (r ≡ err e)) ⊎ ((a : A) × (r ≡ ok a))
Result-cases (ok a) = inr (a, refl)
Result-cases (err e) = inl (e, refl)

abbrev pub event_row : String → String → Text → ℕ → String → Event
event_row source event_id text block payload = record {
  id = event_id;
  source = source;
  sequence = text;
  block_number = block;
  payload = payload;
}

-- The event is new, its numbers can be stored, and it was written.
pub record IsIngested (event : Event) (n : ℕ) (db db' : Db) : Type 0 where
  pub fresh : has event_key event.id db.events ≡ false
  pub printed : str n ≡ ok event.sequence
  pub small : event.block_number < integer_limit
  pub readable : is_readable (find cursor_key event.source db.cursors) ≡ true
  pub written : db' ≡ ingested_db event n db
