-- ===== src/Store/Tests/Scripts.antt =====
-- Runs of the store's methods.
use text.Mathlib.TextEquality.{eq_iff}
use nexguard_sentinel.Prelude.{
  String, true, false, Option, none, some, List, [], ◌∷◌, string_eq, ◌≡◌, refl, ◌≢◌, nat_eq,
  nats_eq, pos, arith,
}
use nexguard_sentinel.Python.Exec.{ok, err, overflow_error}
use nexguard_sentinel.Python.Text.{strip, is_space, lstrip, rstrip}
use nexguard_sentinel.Python.Number.{
  str, decimal, int, int_signed, magnitude, digits, digit, skip_prefix,
}
use nexguard_sentinel.Sql.{find, has, insert, exists, count, update, next_id, bind_integer}
use nexguard_sentinel.Store.Rows.{Status, Db, Intent, empty}
use nexguard_sentinel.Store.Intake
use nexguard_sentinel.Store.Intake.{
  insert_event, put_cursor, advance, ingest_row, ingest_body, cursor,
}
use nexguard_sentinel.Store.Reserve
use nexguard_sentinel.Store.Reserve.{
  add_audit, check_events, insert_incident, insert_intent, insert_owner, insert_owners,
  write_reservation, may_reserve, reserve_body,
}
use nexguard_sentinel.Store.Lifecycle
use nexguard_sentinel.Store.Lifecycle.{
  update_intents, prepare_body, broadcast_body, is_hash_shaped, outcome_status, check_finish,
  set_latch, add_outbox, finish_body, is_latched,
}
use nexguard_sentinel.Store.Calls.{Call, run, runs}
use nexguard_sentinel.Store.Calls.Found.{row}
use nexguard_sentinel.Store.Intake.{is_replay}
use nexguard_sentinel.Store.Reserve.{new_intent}
use nexguard_sentinel.Store.Lifecycle.{is_receipt, is_null}

-- A run in which every definition computes.
unfoldable pub executed : List Call → Db
unfolding runs run Intake.ingest Reserve.reserve Lifecycle.prepare Lifecycle.broadcast
    Lifecycle.finish insert_event put_cursor advance ingest_row ingest_body add_audit check_events
    insert_incident insert_intent insert_owner insert_owners write_reservation may_reserve
    reserve_body update_intents prepare_body broadcast_body is_hash_shaped outcome_status
    check_finish set_latch add_outbox finish_body find has insert exists count update next_id
    bind_integer str decimal int int_signed magnitude digits digit skip_prefix strip is_space lstrip
    rstrip string_eq nat_eq nats_eq
executed calls = runs calls empty

abbrev pub hash : String
hash = "0x00112233445566778899aabbccddeeff00112233445566778899aabbccddeeff"

-- Two withdrawals are seen, the second twice; one is acted on, and its transaction is confirmed.
abbrev pub script : List Call
script =
    Call.ingest "vault" "e1" (pos 7) (pos 100) "w1"
    ∷ Call.ingest "vault" "e2" (pos 12) (pos 103) "w2"
    ∷ Call.ingest "vault" "e2" (pos 12) (pos 103) "w2"
    ∷ Call.reserve "i1" "n1" ("e2" ∷ []) "t1" "t2"
    ∷ Call.prepare "i1" (pos 5) "fee" "t3"
    ∷ Call.broadcast "i1" hash "t4"
    ∷ Call.finish "i1" "success" "receipt" "t5"
    ∷ []

status_after : Option Intent → Option Status
status_after none = none
status_after (some r) = some r.status

final_status : status_after (row "i1" (executed script)) ≡ some Status.success
unfolding executed status_after
final_status = refl

final_cursor : cursor "vault" (executed script) ≡ ok (some (pos 12, 103))
unfolding executed cursor
final_cursor = refl

-- The same start, but the outcome of the transaction is not known.
abbrev pub lost : List Call
lost =
    Call.ingest "vault" "e1" (pos 7) (pos 100) "w1"
    ∷ Call.ingest "vault" "e2" (pos 12) (pos 103) "w2"
    ∷ Call.reserve "i1" "n1" ("e2" ∷ []) "t1" "t2"
    ∷ Call.finish "i1" "indeterminate" "timeout" "t3"
    ∷ []

-- An event and nothing else.
abbrev pub seen : List Call
seen = Call.ingest "vault" "e1" (pos 7) (pos 100) "w1" ∷ []

lost_latched : is_latched (executed lost) ≡ true
unfolding executed is_latched
lost_latched = refl

-- A second reservation, of another event, waits for the first intent.
abbrev pub waiting : List Call
waiting =
    Call.ingest "vault" "e1" (pos 7) (pos 100) "w1"
    ∷ Call.ingest "vault" "e2" (pos 12) (pos 103) "w2"
    ∷ Call.reserve "i1" "n1" ("e2" ∷ []) "t1" "t2"
    ∷ []

second_waits : (Reserve.reserve "i2" "n2" ("e1" ∷ []) "t3" "t4" (executed waiting)).0 ≡ ok false
unfolding executed
second_waits = refl

-- A sequence that does not fit 64 bits is stored, and a block number that does not is refused.
wide_numbers :
    ((Intake.ingest "vault" "e3" (pos 36893488147419103232) (pos 1) "w" (executed seen)).0
      ≡ ok true)
    × ((Intake.ingest "vault" "e3" (pos 1) (pos 36893488147419103232) "w" (executed seen)).0
        ≡ err overflow_error)
unfolding executed
wide_numbers = (refl, refl)

-- What follows the prefix need not be hexadecimal digits alone.
lax_hash :
    (Lifecycle.broadcast "i1" "0x-00112233445566778899aabbccddeeff00112233445566778899aabbccdde_f"
      "t4"
      (executed (
        Call.ingest "vault" "e1" (pos 7) (pos 100) "w1"
        ∷ Call.reserve "i1" "n1" ("e1" ∷ []) "t1" "t2"
        ∷ Call.prepare "i1" (pos 5) "fee" "t3"
        ∷ []))).0
    ≡ ok tt
unfolding executed
lax_hash = refl

pub vault_named : ◌≢◌ {A = String} "vault" ""
vault_named = ground (arith, eq_iff "vault" "")

pub e1_named : ◌≢◌ {A = String} "e1" ""
e1_named = ground (arith, eq_iff "e1" "")

pub e9_named : ◌≢◌ {A = String} "e9" ""
e9_named = ground (arith, eq_iff "e9" "")
