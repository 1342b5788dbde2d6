-- ===== src/Store/Guarantees/Replay.antt =====
-- What `ingest` does with an event that is new, and with one that it has seen.
use nexguard_sentinel.Prelude.{
  ℕ, String, true, Option, none, some, List, string_eq, ◌≡◌, refl, ◌∙◌, arith, ◌≢◌, ◌<◌, pos,
  nat_eq, nats_eq,
}
use nexguard_sentinel.Python.Exec.{ok, transaction, transaction-ok}
use nexguard_sentinel.Python.Text.{Text}
use nexguard_sentinel.Python.Number.{str}
use nexguard_sentinel.Sql.{integer_limit}
use nexguard_sentinel.Store.Rows.{Db, Cursor, empty}
use nexguard_sentinel.Store.Intake.{ingest, ingest_body}
use nexguard_sentinel.Store.Intake.Outcomes.{ingested_db, event_row, ingest_row-new, is_readable}
use nexguard_sentinel.Store.Intake.Exactly.{ingest_body-new, fresh-of_find}
use nexguard_sentinel.Store.Calls.{Call, runs}
use nexguard_sentinel.Store.Guarantees.Cursors.{runs-CursorsExact}
use nexguard_sentinel.Store.Guarantees.Cursors.Ingested.{event_at, cursor_at, Attained}

readable-of_Attained :
    (db : Db) (s : String) (o : Option Cursor) → Attained db s o → is_readable o ≡ true
readable-of_Attained db s none h = refl
readable-of_Attained db s (some c) h = ground (arith, h.3)

module _ (source event_id : String) (n block : ℕ) (payload : String) where
  ingest-named :
      (db : Db)
      → source ≢ ""
      → event_id ≢ ""
      → ingest source event_id (pos n) (pos block) payload db
        ≡ transaction (ingest_body source event_id n block payload) db
  unfolding ingest
  ingest-named db named named' = ground arith

  -- After any calls, an event that has not been seen is stored and its cursor is settled, provided
  -- that it has a name and a source, that Python prints its sequence and that SQLite can hold its
  -- block number: no other condition makes `ingest` raise.
  pub ingest-new :
      (calls : List Call) (text : Text)
      → source ≢ ""
      → event_id ≢ ""
      → str n ≡ ok text
      → block < integer_limit
      → event_at event_id (runs calls empty) ≡ none
      → ingest source event_id (pos n) (pos block) payload (runs calls empty)
        ≡ (ok true, ingested_db (event_row source event_id text block payload) n (runs calls empty))
  ingest-new calls text named named' printed small absent =
      let db = runs calls empty in
      let fresh = fresh-of_find source event_id n block payload db absent in
      let readable =
        readable-of_Attained db source (cursor_at source db)
          ((runs-CursorsExact calls).attained source) in
      ingest-named db named named'
      ∙ transaction-ok (ingest_body source event_id n block payload) db (
          ingest_body-new source event_id n block payload db text printed absent
          ∙ ingest_row-new (event_row source event_id text block payload) n db fresh small readable)
