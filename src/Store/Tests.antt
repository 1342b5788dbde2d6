-- ===== src/Store/Tests.antt =====
-- Runs of the store, and its guarantees at concrete calls.
mod Scripts
use text.Mathlib.TextEquality.{eq_iff}
use nexguard_sentinel.Prelude.{
  true, Option, none, some, List, [], ◌∷◌, ◌++◌, string_eq, ◌≡◌, refl, ◌≢◌, nat_eq, nats_eq, pos,
  arith,
}
use nexguard_sentinel.Python.Exec.{ok}
use nexguard_sentinel.Python.Text.{codes, strip, is_space, lstrip, rstrip}
use nexguard_sentinel.Python.Number.{
  str, decimal, int, int_signed, magnitude, digits, digit, skip_prefix,
}
use nexguard_sentinel.Sql.{find, has, insert, exists, count, update, next_id, bind_integer}
use nexguard_sentinel.Store.Rows.{Status, Db, Intent, empty}
use nexguard_sentinel.Store.Intake
use nexguard_sentinel.Store.Intake.{
  insert_event, put_cursor, advance, ingest_row, ingest_body, cursor,
}
use nexguard_sentinel.Store.Reserve
use nexguard_sentinel.Store.Reserve.{
  add_audit, check_events, insert_incident, insert_intent, insert_owner, insert_owners,
  write_reservation, may_reserve, reserve_body,
}
use nexguard_sentinel.Store.Lifecycle
use nexguard_sentinel.Store.Lifecycle.{
  update_intents, prepare_body, broadcast_body, is_hash_shaped, set_latch, add_outbox, finish_body,
  is_latched,
}
use nexguard_sentinel.Store.Calls.{Call, run, runs}
use nexguard_sentinel.Store.Calls.Found.{row}
use nexguard_sentinel.Store.Reserve.Writes.{reserved_db}
use nexguard_sentinel.Store.Reserve.Exactly.{IsReservable, reserve-exactly}
use nexguard_sentinel.Store.Calls.Found.{runs-Unique}
use nexguard_sentinel.Store.Guarantees.Sending.{Replaced, IsPreparable, prepare-exactly}
use nexguard_sentinel.Store.Guarantees.Broadcasting.{IsBroadcastable}
use nexguard_sentinel.Store.Reserve.{new_intent}
use nexguard_sentinel.Store.Intake.Outcomes.{ingested_db, event_row}
use nexguard_sentinel.Store.Guarantees.Exclusive.{OneUnfinished, runs-OneUnfinished}
use nexguard_sentinel.Store.Guarantees.Latch.{reserve-after_indeterminate}
use nexguard_sentinel.Store.Guarantees.Life.{Evolves, run-Evolves}
use nexguard_sentinel.Store.Guarantees.Evidence.{AllComplete, runs-AllComplete}
use nexguard_sentinel.Store.Guarantees.Cursors.{runs-CursorsExact}
use nexguard_sentinel.Store.Guarantees.Cursors.Ingested.{CursorsExact}
use nexguard_sentinel.Store.Guarantees.Ownership.{reserve-owned_twice}
use nexguard_sentinel.Store.Guarantees.Replay.{ingest-new}
use nexguard_sentinel.Store.Tests.Scripts.{
  executed, hash, script, lost, seen, waiting, vault_named, e9_named,
}

runs-OneUnfinished_example : OneUnfinished (runs script empty)
runs-OneUnfinished_example = runs-OneUnfinished script

reserve-after_indeterminate_example :
    (Reserve.reserve "i2" "n2" ("e1" ∷ []) "t4" "t5" (runs seen (runs lost empty))).0 ≢ ok true
unfolding executed
reserve-after_indeterminate_example =
    reserve-after_indeterminate lost seen "i1" refl "i2" "n2" ("e1" ∷ []) "t4" "t5"

run-Evolves_example :
    Evolves
      (row "i1" (runs lost empty))
      (row "i1" (run (Call.finish "i1" "reverted" "receipt" "t6") (runs lost empty)))
run-Evolves_example = run-Evolves lost (Call.finish "i1" "reverted" "receipt" "t6") "i1"

runs-AllComplete_example : AllComplete (runs script empty)
runs-AllComplete_example = runs-AllComplete script

runs-CursorsExact_example : CursorsExact (runs script empty)
runs-CursorsExact_example = runs-CursorsExact script

reserve-owned_twice_example :
    (Reserve.reserve "i8" "n8"
      ("e1" ∷ [])
      "t3"
      "t4"
      (runs lost (Reserve.reserve "i7" "n7" ("e1" ∷ []) "t1" "t2" (runs seen empty)).1)).0
    ≢ ok true
unfolding executed
reserve-owned_twice_example =
    reserve-owned_twice seen lost "i7" "n7" ("e1" ∷ []) "t1" "t2" "e1" refl refl "i8" "n8"
      ("e1" ∷ []) "t3" "t4" refl

ingest-new_example :
    Intake.ingest "vault" "e9" (pos 8) (pos 104) "w9" (runs seen empty)
    ≡ (ok true, ingested_db (event_row "vault" "e9" (codes "8") 104 "w9") 8 (runs seen empty))
unfolding executed
ingest-new_example =
    ingest-new "vault" "e9" 8 104 "w9" seen (codes "8") vault_named e9_named refl (omega arith) refl

-- Everything that the reservation in `waiting` needs.
reservable : IsReservable "i5" "n5" ("e1" ∷ []) (runs seen empty)
unfolding executed
reservable = record {
  intent_named = ground (arith, eq_iff "i5" "");
  incident_named = ground (arith, eq_iff "n5" "");
  some_event = λ e. cc;
  distinct = refl;
  unlatched = refl;
  idle = refl;
  new_intent = refl;
  new_incident = refl;
  free = ((refl, refl), tt);
}

reserve-exactly_example :
    (Reserve.reserve "i5" "n5" ("e1" ∷ []) "t1" "t2" (runs seen empty)).1
    ≡ reserved_db "i5" "n5" ("e1" ∷ []) "t1" "t2" (runs seen empty)
reserve-exactly_example =
    (reserve-exactly "i5" "n5" ("e1" ∷ []) "t1" "t2" (runs seen empty)).1 reservable

abbrev waiting_row : Intent
waiting_row = new_intent "i1" "n1" "t1"

row_there : row "i1" (runs waiting empty) ≡ some waiting_row
unfolding executed
row_there = refl

abbrev prepared_row : Intent
prepared_row = record waiting_row {
  status = Status.prepared;
  nonce = some 5;
  fee_data = some "fee";
}

-- What `prepare` and `broadcast` need, in two of the runs.
unfoldable preparable : IsPreparable "i1" (pos 5) (runs waiting empty)
preparable = record {
  n = 5;
  is_n = refl;
  fits = omega arith;
  intent_row = waiting_row;
  there = row_there;
  reserved = refl;
}

prepare-exactly_example :
    Replaced "i1" "prepared" "nonce and fee data persisted" "t3" prepared_row
      (runs waiting empty)
      (Lifecycle.prepare "i1" (pos 5) "fee" "t3" (runs waiting empty)).1
unfolding preparable
prepare-exactly_example =
    (prepare-exactly "i1" (pos 5) "fee" "t3" (runs waiting empty) (runs-Unique waiting)).1
      preparable

abbrev signing : List Call
signing =
    seen ++ Call.reserve "i1" "n1" ("e1" ∷ []) "t1" "t2" ∷ Call.prepare "i1" (pos 5) "fee" "t3" ∷ []

unfoldable broadcastable : IsBroadcastable "i1" hash (runs signing empty)
unfolding executed
broadcastable = record {
  long = refl;
  prefixed = refl;
  n = _;
  is_n = refl;
  intent_row = prepared_row;
  there = refl;
  prepared = refl;
}
