-- ===== src/Store/Guarantees/Life.antt =====
-- An intent's life: the diagram of its status, and the data that each status comes with.
use nexguard_sentinel.Prelude.{
  ℕ, String, Bool, true, false, Option, none, some, List, ◌==◌, string_eq, if◌then◌else◌, ◌≡◌, refl,
  arith, ◌⊎◌, inl, inr, Bool-cases,
}
use nexguard_sentinel.Python.Exec.{ok}
use nexguard_sentinel.Sql.{has}
use nexguard_sentinel.Sql.Laws.{key-find, map_if, has-eq-is_found}
use nexguard_sentinel.Store.Rows.{
  Status, Db, Intent, intent_key, is_unfinished, is_reserved, is_prepared, empty,
}
use nexguard_sentinel.Store.Reserve.{new_intent}
use nexguard_sentinel.Store.Lifecycle.{
  check_finish, set_prepared, set_broadcast, set_outcome, reserved_row, prepared_row,
  outcome_status,
}
use nexguard_sentinel.Store.Calls.{
  Step, stay, ingested, reserved, prepared, finished, Call, run, runs,
}
use nexguard_sentinel.Store.Calls.Found.{
  row, row-ingested, row-reserved, row-prepared, row-broadcast, row-finished, runs-Unique,
}
use nexguard_sentinel.Store.Calls.Steps.{run-Step}

-- The status diagram.
infix 40 ◌⟶◌
pub data ◌⟶◌ : Status → Status → Type 0 where
  prepare : Status.reserved ⟶ Status.prepared
  send : Status.prepared ⟶ Status.broadcast
  confirm : Status.broadcast ⟶ Status.success
  revert : Status.broadcast ⟶ Status.reverted
  reconcile_success : Status.indeterminate ⟶ Status.success
  reconcile_revert : Status.indeterminate ⟶ Status.reverted
  skip : Status.reserved ⟶ Status.already_desired
  lose : {s : Status} → is_unfinished s ≡ true → s ⟶ Status.indeterminate

-- The same intent, with its status unchanged or one edge on.
pub record Follows (r r' : Intent) : Type 0 where
  pub same_incident : r'.incident_id ≡ r.incident_id
  pub same_creation : r'.created_at ≡ r.created_at
  pub moved : (r'.status ≡ r.status) ⊎ (r.status ⟶ r'.status)

abbrev Later : Intent → Option Intent → Type 0
Later r none = ⊥
Later r (some r') = Follows r r'

-- What may become of a lookup: a row moves along the diagram and is never lost, and a row that
-- appears is reserved.
abbrev pub Evolves : Option Intent → Option Intent → Type 0
Evolves (some r) o = Later r o
Evolves none none = Unit
Evolves none (some r) = r.status ≡ Status.reserved

Evolves-refl : (o : Option Intent) → Evolves o o
Evolves-refl none = tt
Evolves-refl (some r) = record { same_incident = refl; same_creation = refl; moved = inl refl }

edge-prepare : (s : Status) → is_reserved s ≡ true → s ⟶ Status.prepared
edge-prepare Status.reserved h = prepare
edge-prepare _ h = cc

edge-send : (s : Status) → is_prepared s ≡ true → s ⟶ Status.broadcast
edge-send Status.prepared h = send
edge-send _ h = cc

-- A status that `finish` sets, from a row that it lets pass.
pub edge-finish :
    (outcome : String) (r : Intent) (s : Status)
    → outcome_status outcome ≡ some s
    → check_finish (some r) s ≡ ok tt
    → r.status ⟶ s
unfolding check_finish outcome_status
edge-finish outcome r s known h =
    grind (arith, confirm, revert, reconcile_success, reconcile_revert, skip, lose)

module _ (intent : String) where
  Evolves-reserved :
      (incident now i : String) (o : Option Intent)
      → (o ≡ none) ⊎ ((intent == i) ≡ false)
      → Evolves o (if intent == i then some (new_intent intent incident now) else o)
  Evolves-reserved incident now i o (inr e) = rw e (Evolves-refl o)
  Evolves-reserved incident now i o (inl e) = rw e (fresh (intent == i))
    where
      fresh : (b : Bool) → Evolves none (if b then some (new_intent intent incident now) else none)
      fresh true = refl
      fresh false = tt

  Evolves-prepared :
      (nonce : ℕ) (fee_data : String) (o : Option Intent)
      → Evolves o (map_if (reserved_row intent) (set_prepared nonce fee_data) o)
  Evolves-prepared nonce fee_data none = tt
  Evolves-prepared nonce fee_data (some r) = elim (Bool-cases (reserved_row intent r)) [
    | inr f ↦ rw f (Evolves-refl (some r))
    | inl t ↦ rw t (record {
      same_incident = refl;
      same_creation = refl;
      moved = inr (edge-prepare r.status (ground arith));
    })
  ]

  Evolves-broadcast :
      (tx_hash : String) (o : Option Intent)
      → Evolves o (map_if (prepared_row intent) (set_broadcast tx_hash) o)
  Evolves-broadcast tx_hash none = tt
  Evolves-broadcast tx_hash (some r) = elim (Bool-cases (prepared_row intent r)) [
    | inr f ↦ rw f (Evolves-refl (some r))
    | inl t ↦ rw t (record {
      same_incident = refl;
      same_creation = refl;
      moved = inr (edge-send r.status (ground arith));
    })
  ]

  Evolves-finished :
      (outcome evidence : String) (status : Status) (db : Db)
      → outcome_status outcome ≡ some status
      → check_finish (row intent db) status ≡ ok tt
      → (i : String) (o : Option Intent) → row i db ≡ o
      → Evolves o (map_if (λ r. r.id == intent) (set_outcome status evidence) o)
  Evolves-finished outcome evidence status db known checked i none e = tt
  Evolves-finished outcome evidence status db known checked i (some r) e =
      elim (Bool-cases (r.id == intent)) [
        | inr f ↦ rw f (Evolves-refl (some r))
        | inl t ↦ rw t (record {
          same_incident = refl;
          same_creation = refl;
          moved = inr (
              edge-finish outcome r status known
                (ground (arith, key-find intent_key i db.intents r e)));
        })
      ]

absent-of_has : (i : String) (db : Db) → has intent_key i db.intents ≡ false → row i db ≡ none
absent-of_has i db h = ground (arith, has-eq-is_found intent_key i db.intents)

absent-or_other :
    (intent i : String) (db : Db)
    → has intent_key intent db.intents ≡ false
    → (row i db ≡ none) ⊎ ((intent == i) ≡ false)
absent-or_other intent i db h = elim (Bool-cases (intent == i)) [
  | inr f ↦ inr f
  | inl t ↦ inl (ground (arith, absent-of_has intent db h))
]

Step-Evolves : (db db' : Db) → Step db db' → (i : String) → Evolves (row i db) (row i db')
Step-Evolves db db' (stay e) i = rw e (Evolves-refl (row i db))
Step-Evolves db db' (ingested event n w) i =
    rw (w.written, row-ingested i db event n) (Evolves-refl (row i db))
Step-Evolves db db' (reserved intent incident events now at needs e) i =
    rw (e, row-reserved i db intent incident events now at)
      (Evolves-reserved intent incident now i (row i db)
        (absent-or_other intent i db needs.new_intent))
Step-Evolves db db' (prepared intent nonce fee_data at found small e) i =
    rw (e, row-prepared i db intent nonce fee_data at)
      (Evolves-prepared intent nonce fee_data (row i db))
Step-Evolves db db' (Step.broadcast intent tx_hash at found shaped e) i =
    rw (e, row-broadcast i db intent tx_hash at) (Evolves-broadcast intent tx_hash (row i db))
Step-Evolves db db' (finished intent status outcome evidence at known given checked e) i =
    rw (e, row-finished i db intent status outcome evidence at)
      (Evolves-finished intent outcome evidence status db known checked i (row i db) refl)

-- After any calls on a new database, one more call moves each intent along at most one edge of the
-- status diagram, keeps its incident and its time of creation, never deletes it, and lets an intent
-- appear only as reserved.
pub run-Evolves :
    (calls : List Call) (c : Call) (i : String)
    → Evolves (row i (runs calls empty)) (row i (run c (runs calls empty)))
run-Evolves calls c i =
    let db = runs calls empty in Step-Evolves db (run c db) (run-Step c db (runs-Unique calls)) i
