-- ===== src/Store/Calls/Steps.antt =====
-- Every call is a step.
use nexguard_sentinel.Prelude.{
  String, Bool, true, false, none, List, ℤ, ◌≡◌, ◌∙◌, ap, refl, ◌≢◌, inl, inr, Bool-cases,
  Option-cases, arith, is_negative, pos_part, ltb, ◌==◌, string_eq,
}
use nexguard_sentinel.Python.Exec.{Result, ok, err}
use nexguard_sentinel.Python.Text.{codes}
use nexguard_sentinel.Python.Number.{int}
use nexguard_sentinel.Sql.{find, Unique, integer_limit}
use nexguard_sentinel.Store.Rows.{Db, intent_key, is_reserved, is_prepared}
use nexguard_sentinel.Store.Intake
use nexguard_sentinel.Store.Intake.Outcomes.{Result-cases}
use nexguard_sentinel.Store.Intake.Exactly.{ingest-cases}
use nexguard_sentinel.Store.Reserve
use nexguard_sentinel.Store.Reserve.Exactly.{
  reserve-IsReservable, reserve-of_IsReservable, reserve-unchanged,
}
use nexguard_sentinel.Store.Lifecycle
use nexguard_sentinel.Store.Lifecycle.{
  check_finish, is_hash_shaped, is_number, after_prefix, outcome_status, finish_as,
}
use nexguard_sentinel.Store.Lifecycle.Outcomes.{prepare_lem, broadcast_lem, finish_lem, found_in}
use nexguard_sentinel.Store.Calls.{Call, run, Step, stay, ingested, reserved, prepared, finished}

snd : {A : Type 0} {x y : A × Db} → x ≡ y → x.1 ≡ y.1
snd e = ap (λ p. p.1) e

is_true : Result Bool → Bool
is_true (ok b) = b
is_true (err e) = false

ok-of_is_true : (r : Result Bool) → is_true r ≡ true → r ≡ ok true
unfolding is_true
ok-of_is_true (ok true) h = refl
ok-of_is_true (ok false) h = cc
ok-of_is_true (err e) h = cc

ne-of_is_true : (r : Result Bool) → is_true r ≡ false → r ≢ ok true
unfolding is_true
ne-of_is_true (ok true) h e = cc
ne-of_is_true (ok false) h e = cc
ne-of_is_true (err x) h e = cc

reserve-Step :
    (intent incident : String) (events : List String) (now at : String) (db : Db)
    → Step db (Reserve.reserve intent incident events now at db).1
reserve-Step intent incident events now at db =
    elim (Bool-cases (is_true (Reserve.reserve intent incident events now at db).0)) [
      | inl t ↦
          let needs = reserve-IsReservable intent incident events now at db (ok-of_is_true _ t) in
          reserved intent incident events now at needs
            (snd (reserve-of_IsReservable intent incident events now at db needs))
      | inr f ↦ stay (reserve-unchanged intent incident events now at db (ne-of_is_true _ f))
    ]

ingest-Step :
    (source event_id : String) (sequence block : ℤ) (payload : String) (db : Db)
    → Step db (Intake.ingest source event_id sequence block payload db).1
ingest-Step source event_id sequence block payload db =
    elim (ingest-cases source event_id sequence block payload db) [
      | inl same ↦ stay same
      | inr (text, _, written) ↦ ingested _ (pos_part sequence) written
    ]

prepare-Step :
    (intent : String) (nonce : ℤ) (fee_data at : String) (db : Db)
    → Unique intent_key db.intents
    → Step db (Lifecycle.prepare intent nonce fee_data at db).1
prepare-Step intent nonce fee_data at db u = elim (Bool-cases (is_negative nonce)) [
  | inl bad ↦ stay (snd (prepare_lem intent nonce fee_data at db u) ∙ rw bad)
  | inr fine ↦ elim (Bool-cases (ltb (pos_part nonce) integer_limit)) [
    | inr big ↦ stay (snd (prepare_lem intent nonce fee_data at db u) ∙ rw (fine, big))
    | inl small ↦ elim (Bool-cases (found_in is_reserved (find intent_key intent db.intents))) [
      | inr absent ↦
          stay (snd (prepare_lem intent nonce fee_data at db u) ∙ rw (fine, small, absent))
      | inl found ↦
          prepared intent (pos_part nonce) fee_data at found (ground arith)
            (snd (prepare_lem intent nonce fee_data at db u) ∙ rw (fine, small, found))
    ]
  ]
]

broadcast-Step :
    (intent tx_hash at : String) (db : Db)
    → Unique intent_key db.intents
    → Step db (Lifecycle.broadcast intent tx_hash at db).1
broadcast-Step intent tx_hash at db u = elim (Bool-cases (is_hash_shaped (codes tx_hash))) [
  | inr bad ↦ stay (snd (broadcast_lem intent tx_hash at db u) ∙ rw bad)
  | inl shaped ↦ elim (Bool-cases (is_number (int 16 (after_prefix (codes tx_hash))))) [
    | inr bad ↦ stay (snd (broadcast_lem intent tx_hash at db u) ∙ rw (shaped, bad))
    | inl number ↦ elim (Bool-cases (found_in is_prepared (find intent_key intent db.intents))) [
      | inr absent ↦ stay (snd (broadcast_lem intent tx_hash at db u) ∙ rw (shaped, number, absent))
      | inl found ↦
          Step.broadcast intent tx_hash at found shaped
            (snd (broadcast_lem intent tx_hash at db u) ∙ rw (shaped, number, found))
    ]
  ]
]

finish-unrecognised :
    (intent outcome evidence at : String) (db : Db)
    → outcome_status outcome ≡ none
    → (Lifecycle.finish intent outcome evidence at db).1 ≡ db
unfolding Lifecycle.finish
finish-unrecognised intent outcome evidence at db e = rw e

finish-no_evidence :
    (intent outcome evidence at : String) (db : Db)
    → (evidence == "") ≡ true
    → (Lifecycle.finish intent outcome evidence at db).1 ≡ db
unfolding Lifecycle.finish
finish-no_evidence intent outcome evidence at db e = ground arith

finish-Step :
    (intent outcome evidence at : String) (db : Db)
    → Step db (Lifecycle.finish intent outcome evidence at db).1
finish-Step intent outcome evidence at db = elim (Option-cases (outcome_status outcome)) [
  | inl e ↦ stay (finish-unrecognised intent outcome evidence at db e)
  | inr (status, known) ↦ elim (Bool-cases (evidence == "")) [
    | inl e ↦ stay (finish-no_evidence intent outcome evidence at db e)
    | inr given ↦
        let wanted : evidence ≢ "" = ground arith in
        let written = snd (finish_lem intent outcome evidence at status db known wanted) in
        elim (Result-cases (check_finish (find intent_key intent db.intents) status)) [
          | inl (x, e) ↦ stay (written ∙ rw e)
          | inr (_, e) ↦ finished intent status outcome evidence at known wanted e (written ∙ rw e)
        ]
  ]
]

-- Every call is a step: it writes nothing, or it writes all that its method has to.
pub run-Step : (c : Call) (db : Db) → Unique intent_key db.intents → Step db (run c db)
unfolding run
run-Step (Call.ingest source event_id sequence block payload) db u =
    ingest-Step source event_id sequence block payload db
run-Step (Call.reserve intent incident events now at) db u =
    reserve-Step intent incident events now at db
run-Step (Call.prepare intent nonce fee_data at) db u = prepare-Step intent nonce fee_data at db u
run-Step (Call.broadcast intent tx_hash at) db u = broadcast-Step intent tx_hash at db u
run-Step (Call.finish intent outcome evidence at) db u = finish-Step intent outcome evidence at db
