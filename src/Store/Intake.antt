-- ===== src/Store/Intake.antt =====
-- `StateStore.ingest` and `StateStore.cursor`.
pub mod Outcomes
pub mod Exactly
use mathlib.Core.Option
use nexguard_sentinel.Prelude.{
  ℕ, String, Bool, true, false, ◌&&◌, ◌||◌, Option, none, some, List, ◌∷◌, ltb, ◌==◌, string_eq,
  nat_eq, nats_eq, if◌then◌else◌, ℤ, pos, negsuc, is_negative, pos_part,
}
use nexguard_sentinel.Python.Exec.{
  Result, ok, err, value_error, Exec, pure, raise, lift, gets, modify, ◌>>=◌, ◌>>◌, transaction,
}
use nexguard_sentinel.Python.Text.{Text}
use nexguard_sentinel.Python.Number.{str, int}
use nexguard_sentinel.Sql.{find, has, insert, update, bind_integer}
use nexguard_sentinel.Store.Rows.{Db, Event, Cursor, event_key, cursor_key}

-- `int(text)`
abbrev pub parsed : Option ℤ → Result ℤ
parsed none = err (value_error "invalid literal for int() with base 10")
parsed (some n) = ok n

abbrev pub exceeds : ℕ → ℤ → Bool
exceeds n (pos m) = ltb m n
exceeds n (negsuc m) = true

abbrev pub insert_event_rows : Result (List Event) → Exec Db (Unit {0})
insert_event_rows (ok rows) db = (ok tt, record db { events = rows })
insert_event_rows (err e) db = (err e, db)

-- INSERT INTO events
unfoldable pub insert_event : Event → Exec Db (Unit {0})
insert_event event db = insert_event_rows (insert event_key event db.events) db

-- INSERT INTO cursors … ON CONFLICT(source) DO UPDATE SET …
unfoldable pub put_cursor : Cursor → Db → Db
put_cursor c db =
    if has cursor_key c.source db.cursors
    then record db { cursors = update (λ r. r.source == c.source) (λ _. c) db.cursors }
    else record db { cursors = c ∷ db.cursors }

-- The cursor moves if there is none or the new sequence lies behind the stored one.
unfoldable pub advance : Cursor → ℕ → Option Cursor → Exec Db (Unit {0})
advance c sequence none = modify (put_cursor c)
advance c sequence (some old) = do
  stored ← lift (parsed (int 10 old.sequence))
  if exceeds sequence stored then modify (put_cursor c) else pure tt

abbrev pub is_replay : Event → Event → Bool
is_replay old event =
    old.source == event.source
    && old.sequence == event.sequence
    && old.block_number == event.block_number
    && old.payload == event.payload

-- What follows the SELECT of the event, inside the transaction. A number that was bound is the
-- number itself.
unfoldable pub ingest_row : Option Event → Event → ℕ → Exec Db Bool
ingest_row (some old) event sequence =
    if is_replay old event
    then pure false
    else raise (value_error "Conflicting replay; reconciliation required")
ingest_row none event sequence = do
  lift (bind_integer event.block_number)
  insert_event event
  cursor ← gets (λ db. find cursor_key event.source db.cursors)
  advance
      (record {
        source = event.source;
        sequence = event.sequence;
        block_number = event.block_number;
      })
      sequence cursor
  pure true

unfoldable pub ingest_body : String → String → ℕ → ℕ → String → Exec Db Bool
ingest_body source event_id sequence block payload = do
  previous ← gets (λ db. find event_key event_id db.events)
  text ← lift (str sequence)
  ingest_row previous
      (record {
        id = event_id;
        source = source;
        sequence = text;
        block_number = block;
        payload = payload;
      })
      sequence

unfoldable pub ingest : String → String → ℤ → ℤ → String → Exec Db Bool
ingest source event_id sequence block payload =
    if is_negative sequence || is_negative block || source == "" || event_id == ""
    then raise (value_error "Invalid event position or identity")
    else transaction (ingest_body source event_id (pos_part sequence) (pos_part block) payload)

abbrev pub cursor_position : Option Cursor → Result (Option (ℤ × ℕ))
cursor_position none = ok none
cursor_position (some c) = elim (parsed (int 10 c.sequence)) [
  | ok n ↦ ok (some (n, c.block_number))
  | err e ↦ err e
]

-- The source's sequence and block number, as the last `ingest` left them.
unfoldable pub cursor : String → Db → Result (Option (ℤ × ℕ))
cursor source db = cursor_position (find cursor_key source db.cursors)
