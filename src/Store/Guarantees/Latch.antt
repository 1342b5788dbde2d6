-- ===== src/Store/Guarantees/Latch.antt =====
-- The latch: an indeterminate outcome stops every later reservation for good.
use nexguard_sentinel.Prelude.{
  ℕ, String, Bool, true, false, Option, none, some, List, ◌==◌, string_eq, ◌≡◌, refl, arith, ◌≢◌,
  inl, inr, Bool-cases,
}
use nexguard_sentinel.Python.Exec.{ok}
use nexguard_sentinel.Sql.{find, Unique}
use nexguard_sentinel.Store.Rows.{Status, Db, Intent, Event, intent_key, is_indeterminate, empty}
use nexguard_sentinel.Store.Intake.{put_cursor}
use nexguard_sentinel.Store.Intake.Outcomes.{ingested_db}
use nexguard_sentinel.Store.Reserve.{add_audit, reserve}
use nexguard_sentinel.Store.Reserve.Exactly.{reserve-IsReservable}
use nexguard_sentinel.Store.Lifecycle.{set_latch, is_latched, set_outcome}
use nexguard_sentinel.Store.Lifecycle.Outcomes.{finished_db}
use nexguard_sentinel.Sql.Laws.{map_if}
use nexguard_sentinel.Store.Calls.{Step, stay, ingested, reserved, prepared, finished, Call, runs}
use nexguard_sentinel.Store.Calls.Found.{
  row, row-ingested, row-reserved, row-prepared, row-broadcast, row-finished, runs_induction,
  runs-Unique,
}

latch-ingested : (event : Event) (n : ℕ) (db : Db) → (ingested_db event n db).latch ≡ db.latch
unfolding put_cursor
latch-ingested event n db = ground arith

latch-of_indeterminate :
    (intent outcome evidence at : String) (status : Status) (db : Db)
    → is_indeterminate status ≡ true
    → is_latched (finished_db intent status outcome evidence at db) ≡ true
unfolding is_latched add_audit set_latch
latch-of_indeterminate intent outcome evidence at status db t = ground arith

Step-latched : (db db' : Db) → Step db db' → is_latched db ≡ true → is_latched db' ≡ true
unfolding is_latched add_audit set_latch
Step-latched db db' (stay e) h = rw e h
Step-latched db db' (ingested event n w) h = rw (w.written, latch-ingested) h
Step-latched db db' (reserved intent incident events now at needs e) h = rw e h
Step-latched db db' (prepared intent nonce fee_data at found small e) h = rw e h
Step-latched db db' (Step.broadcast intent tx_hash at found shaped e) h = rw e h
Step-latched db db' (finished intent status outcome evidence at known given checked e) h =
    rw e (ground arith)

-- A latched store refuses reservations after any further calls.
latched-reserve :
    (calls : List Call) (db : Db)
    → Unique intent_key db.intents
    → is_latched db ≡ true
    → (intent incident : String) (events : List String) (now at : String)
    → (reserve intent incident events now at (runs calls db)).0 ≢ ok true
unfolding is_latched
latched-reserve calls db u h intent incident events now at success =
    let latched = runs_induction (λ d. is_latched d ≡ true) Step-latched calls db u h in
    let needs = reserve-IsReservable intent incident events now at (runs calls db) success in
    cc (needs.unlatched, latched)

abbrev pub indeterminate_row : Option Intent → Bool
indeterminate_row none = false
indeterminate_row (some r) = is_indeterminate r.status

-- Where an intent is indeterminate, the latch is set.
pub record IndeterminateLatched (db : Db) : Type 0 where
  pub held : (i : String) → indeterminate_row (row i db) ≡ true → is_latched db ≡ true

latched-finished :
    (i intent evidence : String) (status : Status) (db db' : Db)
    → (is_indeterminate status ≡ true → is_latched db' ≡ true)
    → (is_latched db ≡ true → is_latched db' ≡ true)
    → IndeterminateLatched db
    → indeterminate_row (map_if (λ r. r.id == intent) (set_outcome status evidence) (row i db))
      ≡ true
    → is_latched db' ≡ true
latched-finished i intent evidence status db db' new keep h a = go (row i db) refl a
  where
    go :
        (o : Option Intent)
        → row i db ≡ o
        → indeterminate_row (map_if (λ r. r.id == intent) (set_outcome status evidence) o) ≡ true
        → is_latched db' ≡ true
    go none e b = cc
    go (some r) e b = elim (Bool-cases (is_indeterminate status)) [
      | inl t ↦ new t
      | inr f ↦ keep (h.held i (rw e (ground arith)))
    ]

Step-IndeterminateLatched :
    (db db' : Db) → Step db db' → IndeterminateLatched db → IndeterminateLatched db'
Step-IndeterminateLatched db db' (stay e) h = rw e h
Step-IndeterminateLatched db db' (ingested event n w) h = record {
  held = λ i a.
      Step-latched db db' (ingested event n w)
        (h.held i (rw (w.written, row-ingested i db event n) at a));
}
Step-IndeterminateLatched db db' (reserved intent incident events now at needs e) h = record {
  held = λ i a.
      Step-latched db db' (reserved intent incident events now at needs e)
        (h.held i (ground (arith, rw (e, row-reserved i db intent incident events now at) at a)));
}
Step-IndeterminateLatched db db' (prepared intent nonce fee_data at found small e) h = record {
  held = λ i a.
      Step-latched db db' (prepared intent nonce fee_data at found small e)
        (h.held i (ground (arith, rw (e, row-prepared i db intent nonce fee_data at) at a)));
}
Step-IndeterminateLatched db db' (Step.broadcast intent tx_hash at found shaped e) h = record {
  held = λ i a.
      Step-latched db db' (Step.broadcast intent tx_hash at found shaped e)
        (h.held i (ground (arith, rw (e, row-broadcast i db intent tx_hash at) at a)));
}
Step-IndeterminateLatched db db' (finished intent status outcome evidence at known given checked e)
      h =
    record {
      held = λ i a.
          latched-finished i intent evidence status db db'
            (λ t. rw e (latch-of_indeterminate intent outcome evidence at status db t))
            (Step-latched db db' (finished intent status outcome evidence at known given checked e))
            h (rw (e, row-finished i db intent status outcome evidence at) at a);
    }

IndeterminateLatched-empty : IndeterminateLatched empty
unfolding find
IndeterminateLatched-empty = record { held = λ i a. cc }

-- Once any intent of a store has been recorded as indeterminate, no call of `reserve` returns True
-- again, whatever calls come in between, a reconciliation of that intent included.
pub reserve-after_indeterminate :
    (calls more : List Call) (i : String)
    → indeterminate_row (row i (runs calls empty)) ≡ true
    → (intent incident : String) (events : List String) (now at : String)
    → (reserve intent incident events now at (runs more (runs calls empty))).0 ≢ ok true
reserve-after_indeterminate calls more i h =
    latched-reserve more (runs calls empty) (runs-Unique calls) (
      (runs_induction IndeterminateLatched Step-IndeterminateLatched calls empty tt
          IndeterminateLatched-empty).held
        i h)
