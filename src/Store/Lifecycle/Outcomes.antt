-- ===== src/Store/Lifecycle/Outcomes.antt =====
-- Each method of an intent's life as one equation: the result on every branch, and the database.
use nexguard_sentinel.Prelude.{
  ℕ, String, Bool, true, false, not, Option, none, some, [], ◌∷◌, ◌==◌, string_eq, nat_eq,
  if◌then◌else◌, ltb, ◌≡◌, refl, ◌≢◌, ◌∙◌, ap, arith, ℤ, is_negative, pos_part,
}
use nexguard_sentinel.Python.Exec.{
  Exception, Result, ok, err, value_error, overflow_error, transaction, transaction-ok,
  transaction-err,
}
use nexguard_sentinel.Python.Text.{codes}
use nexguard_sentinel.Python.Number.{int}
use nexguard_sentinel.Sql.{find, has, count, update, next_id, Unique, bind_integer, integer_limit}
use nexguard_sentinel.Sql.Laws.{count-eq-count_of, has-eq-is_found, has-update}
use nexguard_sentinel.Store.Rows.{
  Status, Db, Intent, Outbox, object, intent_key, is_reserved, is_prepared,
}
use nexguard_sentinel.Store.Reserve.{add_audit}
use nexguard_sentinel.Store.Lifecycle.{
  reserved_row, prepared_row, set_prepared, set_broadcast, set_outcome, update_intents,
  prepare_body, prepare, broadcast_body, broadcast, is_hash_shaped, after_prefix, is_number,
  check_finish, set_latch, add_outbox, finish_body, finish, outcome_status,
}

-- Whether a row was found and its status passes a test.
abbrev pub found_in : (Status → Bool) → Option Intent → Bool
found_in p none = false
found_in p (some i) = p i.status

module _ (intent : String) (db : Db) (u : Unique intent_key db.intents) where
  reserved_count :
      (count (reserved_row intent) db.intents == 1)
      ≡ found_in is_reserved (find intent_key intent db.intents)
  unfolding nat_eq
  reserved_count = ground (
    arith,
    count-eq-count_of intent_key (λ (i : Intent). is_reserved i.status) intent db.intents u,
  )

  prepared_count :
      (count (prepared_row intent) db.intents == 1)
      ≡ found_in is_prepared (find intent_key intent db.intents)
  unfolding nat_eq
  prepared_count = ground (
    arith,
    count-eq-count_of intent_key (λ (i : Intent). is_prepared i.status) intent db.intents u,
  )

abbrev pub prepared_db : String → ℕ → String → String → Db → Db
prepared_db intent nonce fee_data at db =
    add_audit intent "prepared" "nonce and fee data persisted" at (record db {
      intents = update (reserved_row intent) (set_prepared nonce fee_data) db.intents;
    })

abbrev pub broadcast_db : String → String → String → Db → Db
broadcast_db intent tx_hash at db =
    add_audit intent "broadcast" tx_hash at
      (record db { intents = update (prepared_row intent) (set_broadcast tx_hash) db.intents })

-- `prepare` raises unless the nonce is a number that SQLite can hold and the intent is reserved;
-- then it is prepared.
pub prepare_lem :
    (intent : String) (nonce : ℤ) (fee_data at : String) (db : Db)
    → Unique intent_key db.intents
    → prepare intent nonce fee_data at db ≡ (
        if is_negative nonce
        then (err (value_error "Nonce cannot be negative"), db)
        else if ltb (pos_part nonce) integer_limit
        then (if found_in is_reserved (find intent_key intent db.intents)
            then (ok tt, prepared_db intent (pos_part nonce) fee_data at db)
            else (err (value_error "Intent is not reserved; do not send"), db))
        else (err overflow_error, db))
unfolding prepare prepare_body bind_integer update_intents
prepare_lem intent nonce fee_data at db u = ground (arith, reserved_count intent db u)

-- `broadcast` raises unless the hash has the shape that it tests for and the intent is prepared.
pub broadcast_lem :
    (intent tx_hash at : String) (db : Db)
    → Unique intent_key db.intents
    → broadcast intent tx_hash at db ≡ (
        if not (is_hash_shaped (codes tx_hash))
        then (err (value_error "Invalid transaction hash"), db)
        else if not (is_number (int 16 (after_prefix (codes tx_hash))))
        then (err (value_error "invalid literal for int() with base 16"), db)
        else if found_in is_prepared (find intent_key intent db.intents)
        then (ok tt, broadcast_db intent tx_hash at db)
        else (err (value_error "Intent is not prepared; reconcile"), db))
unfolding broadcast broadcast_body update_intents
broadcast_lem intent tx_hash at db u = ground (arith, prepared_count intent db u)

abbrev pub with_outbox : String → String → Db → Db
with_outbox intent outcome db = record db {
  outbox =
      (record {
        id = next_id (λ (o : Outbox). o.id) db.outbox;
        intent_id = intent;
        payload = object (("intent", intent) ∷ ("outcome", outcome) ∷ []);
        status = "pending";
        attempts = 0;
        next_attempt_at = none;
        last_error = none;
      })
      ∷ db.outbox;
}

abbrev pub finished_db : String → Status → String → String → String → Db → Db
finished_db intent status outcome evidence at db = with_outbox intent outcome (
    add_audit intent outcome evidence at (
      set_latch status evidence (record db {
        intents = update (λ i. i.id == intent) (set_outcome status evidence) db.intents;
      })))

add_outbox-known :
    (intent outcome : String) (db : Db)
    → has intent_key intent db.intents ≡ true
    → add_outbox intent outcome db ≡ (ok tt, with_outbox intent outcome db)
unfolding add_outbox
add_outbox-known intent outcome db h = rw h

-- A row that passes the tests of `finish` is there, and stays there.
known-of_check_finish :
    (intent evidence : String) (status : Status) (db : Db)
    → check_finish (find intent_key intent db.intents) status ≡ ok tt
    → has intent_key intent (update (λ i. i.id == intent) (set_outcome status evidence) db.intents)
      ≡ true
unfolding check_finish
known-of_check_finish intent evidence status db h =
    has-update intent_key (λ (i : Intent). i.id == intent) (set_outcome status evidence) intent
      db.intents (λ r. refl)
    ∙ has-eq-is_found intent_key intent db.intents
    ∙ ground arith

pub intents-after_writes :
    (intent outcome evidence at : String) (status : Status) (db : Db)
    → (add_audit intent outcome evidence at (set_latch status evidence db)).intents ≡ db.intents
unfolding add_audit set_latch
intents-after_writes intent outcome evidence at status db = ground arith

finish_body_lem :
    (intent outcome evidence at : String) (status : Status) (db : Db)
    → check_finish (find intent_key intent db.intents) status ≡ ok tt
    → finish_body intent status outcome evidence at db
      ≡ (ok tt, finished_db intent status outcome evidence at db)
unfolding finish_body update_intents
finish_body_lem intent outcome evidence at status db h =
    let written : Db = record db {
      intents = update (λ i. i.id == intent) (set_outcome status evidence) db.intents;
    } in
    rw h (
      add_outbox-known intent outcome
        (add_audit intent outcome evidence at (set_latch status evidence written))
        (ap (has intent_key intent) (intents-after_writes intent outcome evidence at status written)
          ∙ known-of_check_finish intent evidence status db h))

finish_body-refused :
    (intent outcome evidence at : String) (status : Status) (db : Db) (e : Exception)
    → check_finish (find intent_key intent db.intents) status ≡ err e
    → (finish_body intent status outcome evidence at db).0 ≡ err e
unfolding finish_body
finish_body-refused intent outcome evidence at status db e h = rw h

abbrev pub finish_result : Result (Unit {0}) → Db → Db → Result (Unit {0}) × Db
finish_result (ok _) db db' = (ok tt, db')
finish_result (err e) db db' = (err e, db)

finish_body-transaction :
    (intent outcome evidence at : String) (status : Status) (db : Db) (r : Result (Unit {0}))
    → check_finish (find intent_key intent db.intents) status ≡ r
    → transaction (finish_body intent status outcome evidence at) db
      ≡ finish_result r db (finished_db intent status outcome evidence at db)
finish_body-transaction intent outcome evidence at status db (ok u) h =
    transaction-ok (finish_body intent status outcome evidence at) db
      (finish_body_lem intent outcome evidence at status db h)
finish_body-transaction intent outcome evidence at status db (err e) h =
    transaction-err (finish_body intent status outcome evidence at) db
      (finish_body-refused intent outcome evidence at status db e h)

-- `finish` raises unless the outcome is recognised, there is evidence and the row that it reads
-- passes the tests; then the row, the latch, the audit and the outbox are written together.
pub finish_lem :
    (intent outcome evidence at : String) (status : Status) (db : Db)
    → outcome_status outcome ≡ some status
    → evidence ≢ ""
    → finish intent outcome evidence at db
      ≡ finish_result
          (check_finish (find intent_key intent db.intents) status)
          db
          (finished_db intent status outcome evidence at db)
unfolding finish
finish_lem intent outcome evidence at status db known given = rw known (
    ground (
      arith,
      finish_body-transaction intent outcome evidence at status db
          (check_finish (find intent_key intent db.intents) status) refl,
    ))
