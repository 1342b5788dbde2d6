-- ===== src/Store/Guarantees/Exclusive.antt =====
-- Storage-level exclusivity: one unfinished intent at a time.
use nexguard_sentinel.Prelude.{
  String, Bool, true, false, Option, none, some, List, ◌==◌, string_eq, ◌≡◌, refl, arith,
}
use nexguard_sentinel.Python.Exec.{ok}
use nexguard_sentinel.Sql.{find}
use nexguard_sentinel.Sql.Laws.{find-of_not_exists, key-find, map_if}
use nexguard_sentinel.Store.Rows.{Status, Db, Intent, intent_key, is_unfinished, empty}
use nexguard_sentinel.Store.Reserve.Exactly.{IsReservable}
use nexguard_sentinel.Store.Lifecycle.{check_finish, set_outcome}
use nexguard_sentinel.Store.Calls.{Step, stay, ingested, reserved, prepared, finished, Call, runs}
use nexguard_sentinel.Store.Calls.Found.{
  row, row-ingested, row-reserved, row-prepared, row-broadcast, row-finished, runs_induction,
}

abbrev pub unfinished_row : Option Intent → Bool
unfinished_row none = false
unfinished_row (some r) = is_unfinished r.status

-- Any two unfinished intents are the same one.
pub record OneUnfinished (db : Db) : Type 0 where
  pub only :
      (i j : String) → unfinished_row (row i db) ≡ true → unfinished_row (row j db) ≡ true → i ≡ j

-- Every intent that is unfinished afterwards was unfinished before.
abbrev Keeps : Db → Db → Type 0
Keeps db db' = (i : String) → unfinished_row (row i db') ≡ true → unfinished_row (row i db) ≡ true

OneUnfinished-Keeps : {db db' : Db} → Keeps db db' → OneUnfinished db → OneUnfinished db'
OneUnfinished-Keeps k h = record { only = λ i j a b. h.only i j (k i a) (k j b) }

idle-row :
    (intent incident : String) (events : List String) (db : Db)
    → IsReservable intent incident events db
    → (i : String) → unfinished_row (row i db) ≡ false
idle-row intent incident events db h i = go (row i db) refl
  where
    go : (o : Option Intent) → row i db ≡ o → unfinished_row o ≡ false
    go none e = refl
    go (some r) e =
        find-of_not_exists intent_key (λ (x : Intent). is_unfinished x.status) i db.intents r h.idle
          e

pub unfinished-of_check_finish :
    (o : Option Intent) (status : Status) → check_finish o status ≡ ok tt → unfinished_row o ≡ true
unfolding check_finish
unfinished-of_check_finish none status h = cc
unfinished-of_check_finish (some r) status h = ground arith

-- `finish` writes the row of the intent that it has tested, and no other.
finished-Keeps :
    (intent evidence : String) (status : Status) (db : Db)
    → check_finish (row intent db) status ≡ ok tt
    → (i : String) (o : Option Intent) → row i db ≡ o
    → unfinished_row (map_if (λ r. r.id == intent) (set_outcome status evidence) o) ≡ true
    → unfinished_row (row i db) ≡ true
finished-Keeps intent evidence status db checked i none e h = cc
finished-Keeps intent evidence status db checked i (some r) e h = ground (
  arith,
  key-find intent_key i db.intents r e,
  unfinished-of_check_finish (row intent db) status checked,
)

Step-OneUnfinished : (db db' : Db) → Step db db' → OneUnfinished db → OneUnfinished db'
Step-OneUnfinished db db' (stay e) h = rw e h
Step-OneUnfinished db db' (ingested event n w) h =
    OneUnfinished-Keeps (λ i a. rw (w.written, row-ingested i db event n) at a) h
Step-OneUnfinished db db' (reserved intent incident events now at needs e) h = record {
  only = λ i j a b. ground (
    arith,
    idle-row intent incident events db needs i,
    idle-row intent incident events db needs j,
    rw (e, row-reserved i db intent incident events now at) at a,
    rw (e, row-reserved j db intent incident events now at) at b,
  );
}
Step-OneUnfinished db db' (prepared intent nonce fee_data at found small e) h =
    OneUnfinished-Keeps
      (λ i a. ground (arith, rw (e, row-prepared i db intent nonce fee_data at) at a)) h
Step-OneUnfinished db db' (Step.broadcast intent tx_hash at found shaped e) h =
    OneUnfinished-Keeps (λ i a. ground (arith, rw (e, row-broadcast i db intent tx_hash at) at a)) h
Step-OneUnfinished db db' (finished intent status outcome evidence at known given checked e) h =
    OneUnfinished-Keeps
      (λ i a.
        finished-Keeps intent evidence status db checked i (row i db) refl
          (rw (e, row-finished i db intent status outcome evidence at) at a))
      h

OneUnfinished-empty : OneUnfinished empty
unfolding find
OneUnfinished-empty = record { only = λ i j a b. cc }

-- After any sequence of calls on a new database, two unfinished intents are the same intent.
pub runs-OneUnfinished : (calls : List Call) → OneUnfinished (runs calls empty)
runs-OneUnfinished calls =
    runs_induction OneUnfinished Step-OneUnfinished calls empty tt OneUnfinished-empty
