-- ===== src/Store/Lifecycle.antt =====
-- `StateStore.prepare`, `broadcast`, `finish`, `intent` and `is_latched`.
pub mod Outcomes
use nexguard_sentinel.Prelude.{
  ℕ, ◌+◌, String, Bool, true, false, not, ◌&&◌, ◌||◌, Option, none, some, List, [], ◌∷◌, ◌==◌,
  string_eq, nat_eq, if◌then◌else◌, ℤ, is_negative, pos_part, length,
}
use nexguard_sentinel.Python.Exec.{
  Result, ok, err, value_error, integrity_error, Exec, pure, raise, lift, gets, modify, refuse_if,
  ◌>>=◌, ◌>>◌, transaction,
}
use nexguard_sentinel.Python.Text.{Text, codes, starts_with_0x}
use nexguard_sentinel.Python.Number.{int}
use nexguard_sentinel.Sql.{find, has, count, update, next_id, bind_integer}
use nexguard_sentinel.Store.Rows.{
  Status, Json, object, Db, Intent, Outbox, intent_key, is_unfinished, is_reserved, is_prepared,
  is_sent, is_indeterminate,
}
use nexguard_sentinel.Store.Reserve.{add_audit, is_latch_set}

-- WHERE id=? AND status='reserved'
abbrev pub reserved_row : String → Intent → Bool
reserved_row intent i = i.id == intent && is_reserved i.status

-- WHERE id=? AND status='prepared'
abbrev pub prepared_row : String → Intent → Bool
prepared_row intent i = i.id == intent && is_prepared i.status

abbrev pub set_prepared : ℕ → String → Intent → Intent
set_prepared nonce fee_data i = record i {
  status = Status.prepared;
  nonce = some nonce;
  fee_data = some fee_data;
}

abbrev pub set_broadcast : String → Intent → Intent
set_broadcast tx_hash i = record i { status = Status.broadcast; tx_hash = some tx_hash }

-- UPDATE intents SET … WHERE p: its row count
unfoldable pub update_intents : (Intent → Bool) → (Intent → Intent) → Exec Db ℕ
update_intents p f db = (ok (count p db.intents), record db { intents = update p f db.intents })

unfoldable pub prepare_body : String → ℕ → String → String → Exec Db (Unit {0})
prepare_body intent nonce fee_data at = do
  lift (bind_integer nonce)
  updated ← update_intents (reserved_row intent) (set_prepared nonce fee_data)
  refuse_if (not (updated == 1)) (value_error "Intent is not reserved; do not send")
  modify (add_audit intent "prepared" "nonce and fee data persisted" at)

unfoldable pub prepare : String → ℤ → String → String → Exec Db (Unit {0})
prepare intent nonce fee_data at =
    if is_negative nonce
    then raise (value_error "Nonce cannot be negative")
    else transaction (prepare_body intent (pos_part nonce) fee_data at)

unfoldable pub broadcast_body : String → String → String → Exec Db (Unit {0})
broadcast_body intent tx_hash at = do
  updated ← update_intents (prepared_row intent) (set_broadcast tx_hash)
  refuse_if (not (updated == 1)) (value_error "Intent is not prepared; reconcile")
  modify (add_audit intent "broadcast" tx_hash at)

-- `text[2:]`
abbrev pub after_prefix : Text → Text
after_prefix (a ∷ b ∷ s) = s
after_prefix _ = []

-- `len(tx_hash) != 66 or not tx_hash.startswith("0x")`
unfoldable pub is_hash_shaped : Text → Bool
is_hash_shaped t = length t == 66 && starts_with_0x t

abbrev pub is_number : Option ℤ → Bool
is_number none = false
is_number (some _) = true

unfoldable pub broadcast : String → String → String → Exec Db (Unit {0})
broadcast intent tx_hash at =
    if not (is_hash_shaped (codes tx_hash))
    then raise (value_error "Invalid transaction hash")
    else if not (is_number (int 16 (after_prefix (codes tx_hash))))
    then raise (value_error "invalid literal for int() with base 16")
    else transaction (broadcast_body intent tx_hash at)

-- The recognised outcomes, as the status that each sets.
unfoldable pub outcome_status : String → Option Status
outcome_status outcome =
    if outcome == "success"
    then some Status.success
    else if outcome == "reverted"
    then some Status.reverted
    else if outcome == "already_desired"
    then some Status.already_desired
    else if outcome == "indeterminate"
    then some Status.indeterminate
    else none

-- outcome in ("success", "reverted")
abbrev pub is_receipt : Status → Bool
is_receipt Status.success = true
is_receipt Status.reverted = true
is_receipt _ = false

abbrev pub is_already_desired : Status → Bool
is_already_desired Status.already_desired = true
is_already_desired _ = false

abbrev pub is_null {ℓ} : {A : Type ℓ} → Option A → Bool
is_null none = true
is_null (some _) = false

-- The tests of `finish` on the row that it has read.
unfoldable pub check_finish : Option Intent → Status → Result (Unit {0})
check_finish none outcome = err (value_error "No unfinished intent")
check_finish (some row) outcome =
    if not (is_unfinished row.status)
    then err (value_error "No unfinished intent")
    else if is_receipt outcome && not (is_sent row.status)
    then err (value_error "A receipt outcome requires a broadcast or reconciliation")
    else if is_receipt outcome && is_null row.tx_hash
    then err (value_error "A receipt outcome requires a persisted transaction hash")
    else if is_already_desired outcome && not (is_reserved row.status)
    then err (value_error "Already-desired is only valid before transaction preparation")
    else ok tt

abbrev pub set_outcome : Status → String → Intent → Intent
set_outcome outcome evidence i = record i { status = outcome; outcome_evidence = some evidence }

-- INSERT INTO latch … ON CONFLICT(singleton) DO UPDATE SET reason=excluded.reason
unfoldable pub set_latch : Status → String → Db → Db
set_latch outcome evidence db =
    if is_indeterminate outcome then record db { latch = some evidence } else db

-- INSERT INTO outbox, whose intent must exist; the other columns have their defaults
unfoldable pub add_outbox : String → String → Exec Db (Unit {0})
add_outbox intent outcome db =
    if has intent_key intent db.intents
    then (
      ok tt,
      record db {
        outbox =
            (record {
              id = next_id (λ (o : Outbox). o.id) db.outbox;
              intent_id = intent;
              payload = object (("intent", intent) ∷ ("outcome", outcome) ∷ []);
              status = "pending";
              attempts = 0;
              next_attempt_at = none;
              last_error = none;
            })
            ∷ db.outbox;
      },
    )
    else (err integrity_error, db)

unfoldable pub finish_body : String → Status → String → String → String → Exec Db (Unit {0})
finish_body intent status outcome evidence at = do
  row ← gets (λ db. find intent_key intent db.intents)
  lift (check_finish row status)
  update_intents (λ i. i.id == intent) (set_outcome status evidence)
  modify (set_latch status evidence)
  modify (add_audit intent outcome evidence at)
  add_outbox intent outcome

abbrev pub finish_as : Option Status → String → String → String → String → Exec Db (Unit {0})
finish_as none intent outcome evidence at =
    raise (value_error "A recognized outcome and evidence are required")
finish_as (some status) intent outcome evidence at =
    if evidence == ""
    then raise (value_error "A recognized outcome and evidence are required")
    else transaction (finish_body intent status outcome evidence at)

unfoldable pub finish : String → String → String → String → Exec Db (Unit {0})
finish intent outcome evidence at = finish_as (outcome_status outcome) intent outcome evidence at

-- The row of an intent, if there is one.
unfoldable pub intent : String → Db → Option Intent
intent id db = find intent_key id db.intents

unfoldable pub is_latched : Db → Bool
is_latched db = is_latch_set db.latch
