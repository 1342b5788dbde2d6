-- ===== src/Store/Guarantees/Evidence.antt =====
-- The data that an intent's row holds at each status.
use nexguard_sentinel.Prelude.{
  ℕ, String, Bool, true, false, Option, none, some, List, ◌==◌, string_eq, if◌then◌else◌, ◌≡◌, refl,
  arith, ◌≢◌, inl, inr, Bool-cases, ◌<◌,
}
use nexguard_sentinel.Python.Exec.{ok}
use nexguard_sentinel.Python.Text.{codes}
use nexguard_sentinel.Sql.{find, integer_limit}
use nexguard_sentinel.Sql.Laws.{key-find, map_if}
use nexguard_sentinel.Store.Rows.{Status, Db, Intent, intent_key, is_reserved, is_prepared, empty}
use nexguard_sentinel.Store.Reserve.{new_intent}
use nexguard_sentinel.Store.Lifecycle.{
  check_finish, set_prepared, set_broadcast, set_outcome, reserved_row, prepared_row,
  outcome_status, is_receipt, is_null, is_hash_shaped, is_already_desired,
}
use nexguard_sentinel.Store.Calls.{Step, stay, ingested, reserved, prepared, finished, Call, runs}
use nexguard_sentinel.Store.Calls.Found.{
  row, row-ingested, row-reserved, row-prepared, row-broadcast, row-finished, runs_induction,
}

abbrev pub is_broadcast : Status → Bool
is_broadcast Status.broadcast = true
is_broadcast _ = false

abbrev pub is_recorded : Status → Bool
is_recorded Status.success = true
is_recorded Status.reverted = true
is_recorded Status.already_desired = true
is_recorded Status.indeterminate = true
is_recorded _ = false

-- The nonce, if there is one, fits the column.
abbrev pub NonceFits : Option ℕ → Type 0
NonceFits none = Unit
NonceFits (some n) = n < integer_limit

-- The hash, if there is one, has the length and the prefix of a transaction hash.
abbrev pub HashFits : Option String → Type 0
HashFits none = Unit
HashFits (some h) = is_hash_shaped (codes h) ≡ true

-- The evidence, if there is some, says something.
abbrev pub EvidenceFits : Option String → Type 0
EvidenceFits none = Unit
EvidenceFits (some e) = e ≢ ""

pub record IsComplete (r : Intent) : Type 0 where
  -- Before preparation nothing has been sent.
  pub unsent : is_reserved r.status ≡ true → (is_null r.nonce ≡ true) × (is_null r.tx_hash ≡ true)
  -- Nor was it if the wanted state was there already.
  pub never_sent :
      is_already_desired r.status ≡ true → (is_null r.nonce ≡ true) × (is_null r.tx_hash ≡ true)
  pub prepared_nonce :
      is_prepared r.status ≡ true → (is_null r.nonce ≡ false) × (is_null r.fee_data ≡ false)
  pub broadcast_hash : is_broadcast r.status ≡ true → is_null r.tx_hash ≡ false
  -- A receipt has a persisted transaction.
  pub receipt_hash : is_receipt r.status ≡ true → is_null r.tx_hash ≡ false
  -- A transaction has its nonce and its fees.
  pub hash_nonce :
      is_null r.tx_hash ≡ false → (is_null r.nonce ≡ false) × (is_null r.fee_data ≡ false)
  pub recorded : is_recorded r.status ≡ true → is_null r.outcome_evidence ≡ false
  pub nonce_range : NonceFits r.nonce
  pub hash_shape : HashFits r.tx_hash
  pub evidence_given : EvidenceFits r.outcome_evidence

IsComplete-new : (intent incident now : String) → IsComplete (new_intent intent incident now)
IsComplete-new intent incident now = ground arith

IsComplete-prepared :
    (nonce : ℕ) (fee_data : String) (r : Intent)
    → nonce < integer_limit
    → IsComplete r
    → is_reserved r.status ≡ true
    → IsComplete (set_prepared nonce fee_data r)
IsComplete-prepared nonce fee_data r small h s = ground arith

IsComplete-broadcast :
    (tx_hash : String) (r : Intent)
    → is_hash_shaped (codes tx_hash) ≡ true
    → IsComplete r
    → is_prepared r.status ≡ true
    → IsComplete (set_broadcast tx_hash r)
IsComplete-broadcast tx_hash r shaped h s = ground arith

IsComplete-finished :
    (outcome evidence : String) (status : Status) (r : Intent)
    → outcome_status outcome ≡ some status
    → evidence ≢ ""
    → check_finish (some r) status ≡ ok tt
    → IsComplete r
    → IsComplete (set_outcome status evidence r)
unfolding check_finish outcome_status
IsComplete-finished outcome evidence status r known given checked h = ground arith

abbrev pub CompleteAt : Option Intent → Type 0
CompleteAt none = Unit
CompleteAt (some r) = IsComplete r

-- Every intent of the database is complete.
pub record AllComplete (db : Db) : Type 0 where
  pub complete : (i : String) → CompleteAt (row i db)

CompleteAt-map_if :
    (p : Intent → Bool) (f : Intent → Intent) (o : Option Intent)
    → ((r : Intent) → o ≡ some r → p r ≡ true → IsComplete r → IsComplete (f r))
    → CompleteAt o
    → CompleteAt (map_if p f o)
CompleteAt-map_if p f none keep h = tt
CompleteAt-map_if p f (some r) keep h = elim (Bool-cases (p r)) [
  | inl t ↦ rw t (keep r refl t h)
  | inr e ↦ rw e h
]

CompleteAt-reserved :
    (b : Bool) (intent incident now : String) (o : Option Intent)
    → CompleteAt o
    → CompleteAt (if b then some (new_intent intent incident now) else o)
CompleteAt-reserved true intent incident now o h = IsComplete-new intent incident now
CompleteAt-reserved false intent incident now o h = h

Step-AllComplete : (db db' : Db) → Step db db' → AllComplete db → AllComplete db'
Step-AllComplete db db' (stay e) h = rw e h
Step-AllComplete db db' (ingested event n w) h = record {
  complete = λ i. rw (w.written, row-ingested i db event n) (h.complete i);
}
Step-AllComplete db db' (reserved intent incident events now at needs e) h = record {
  complete = λ i.
      rw (e, row-reserved i db intent incident events now at)
        (CompleteAt-reserved (intent == i) intent incident now (row i db) (h.complete i));
}
Step-AllComplete db db' (prepared intent nonce fee_data at found small e) h = record {
  complete = λ i.
      rw (e, row-prepared i db intent nonce fee_data at)
        (CompleteAt-map_if (reserved_row intent) (set_prepared nonce fee_data) (row i db)
          (λ r _ t c. IsComplete-prepared nonce fee_data r small c (ground arith)) (h.complete i));
}
Step-AllComplete db db' (Step.broadcast intent tx_hash at found shaped e) h = record {
  complete = λ i.
      rw (e, row-broadcast i db intent tx_hash at)
        (CompleteAt-map_if (prepared_row intent) (set_broadcast tx_hash) (row i db)
          (λ r _ t c. IsComplete-broadcast tx_hash r shaped c (ground arith)) (h.complete i));
}
Step-AllComplete db db' (finished intent status outcome evidence at known given checked e) h =
    record {
      complete = λ i.
          rw (e, row-finished i db intent status outcome evidence at)
            (CompleteAt-map_if (λ r. r.id == intent) (set_outcome status evidence) (row i db)
              (λ r x t c.
                IsComplete-finished outcome evidence status r known given
                  (ground (arith, key-find intent_key i db.intents r x)) c)
              (h.complete i));
    }

AllComplete-empty : AllComplete empty
unfolding find
AllComplete-empty = record { complete = λ i. tt }

-- After any calls on a new database every intent has the data of its status: nothing sent while it
-- is reserved or already desired, a nonce and fees once prepared, a hash of the right shape once
-- broadcast and for every receipt, and evidence once an outcome is recorded.
pub runs-AllComplete : (calls : List Call) → AllComplete (runs calls empty)
runs-AllComplete calls =
    runs_induction AllComplete Step-AllComplete calls empty tt AllComplete-empty
