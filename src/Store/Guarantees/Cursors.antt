-- ===== src/Store/Guarantees/Cursors.antt =====
-- Cursors: the cursor of a source is at the event with the largest sequence that it has delivered.
pub mod Ingested
use nexguard_sentinel.Prelude.{
  ℕ, String, Bool, true, false, Option, none, some, List, ◌==◌, string_eq, if◌then◌else◌, ◌≡◌, refl,
  ◌∙◌, arith, inl, inr, Bool-cases, ◌≤◌, ◌<◌, pos,
}
use nexguard_sentinel.Python.Exec.{ok}
use nexguard_sentinel.Python.Text.{Text}
use nexguard_sentinel.Python.Number.{str, int}
use nexguard_sentinel.Python.Number.RoundTrip.{int-str}
use nexguard_sentinel.Sql.{find, has}
use nexguard_sentinel.Sql.Laws.{find-replace, has-eq-is_found}
use nexguard_sentinel.Store.Rows.{Status, Db, Event, Cursor, event_key, cursor_key, empty}
use nexguard_sentinel.Store.Intake.{put_cursor}
use nexguard_sentinel.Store.Intake.Outcomes.{ingested_db, moves, cursor_of}
use nexguard_sentinel.Store.Reserve.{add_audit}
use nexguard_sentinel.Store.Lifecycle.{set_latch}
use nexguard_sentinel.Store.Lifecycle.Outcomes.{finished_db}
use nexguard_sentinel.Store.Calls.{Step, stay, ingested, reserved, prepared, finished, Call, runs}
use nexguard_sentinel.Store.Calls.Found.{runs_induction}
use nexguard_sentinel.Store.Guarantees.Cursors.Ingested.{
  CursorsExact, Attained-ingested, Covered-ingested, event_at, cursor_at, event-ingested,
}

pub cursors-finished :
    (intent outcome evidence at : String) (status : Status) (db : Db)
    → ((finished_db intent status outcome evidence at db).cursors ≡ db.cursors)
      × ((finished_db intent status outcome evidence at db).events ≡ db.events)
unfolding add_audit set_latch
cursors-finished intent outcome evidence at status db = ground arith

Step-CursorsExact : (db db' : Db) → Step db db' → CursorsExact db → CursorsExact db'
unfolding add_audit
Step-CursorsExact db db' (stay e) h = rw e h
Step-CursorsExact db db' (ingested event n w) h = rw w.written (record {
  covered = λ id. Covered-ingested event n db w.printed id h;
  attained = λ s. Attained-ingested event n db w.printed s w.fresh (h.attained s);
})
Step-CursorsExact db db' (reserved intent incident events now at needs e) h =
    rw e (record { covered = h.covered; attained = h.attained })
Step-CursorsExact db db' (prepared intent nonce fee_data at found small e) h =
    rw e (record { covered = h.covered; attained = h.attained })
Step-CursorsExact db db' (Step.broadcast intent tx_hash at found shaped e) h =
    rw e (record { covered = h.covered; attained = h.attained })
Step-CursorsExact db db' (finished intent status outcome evidence at known given checked e) h =
    let (same, same') = cursors-finished intent outcome evidence at status db in
    rw e (record { covered = rw (same, same') h.covered; attained = rw (same, same') h.attained })

CursorsExact-empty : CursorsExact empty
unfolding find
CursorsExact-empty = record { covered = λ id. tt; attained = λ s. tt }

-- After any calls on a new database, the cursor of each event's source can be read and is at least
-- as far on as the event, and every cursor is at the sequence and block of an event of its source:
-- it is the largest sequence that the source has delivered.
pub runs-CursorsExact : (calls : List Call) → CursorsExact (runs calls empty)
runs-CursorsExact calls =
    runs_induction CursorsExact Step-CursorsExact calls empty tt CursorsExact-empty
