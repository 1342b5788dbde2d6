-- ===== src/Store/Guarantees/Sending.antt =====
-- When `prepare` lets a transaction go on, and what it leaves in the database.
use nexguard_sentinel.Prelude.{
  ℕ, ◌<◌, String, Bool, true, false, some, ◌∷◌, ◌==◌, string_eq, nat_eq, ltb, ◌≡◌, ◌≢◌, refl, ◌∙◌,
  ap, sym, arith, Bool-cases, inl, inr, ◌⊎◌, ℤ, pos, negsuc, is_negative, pos_part, ◌↔◌, Option,
  none,
}
use nexguard_sentinel.Python.Exec.{Result, ok}
use nexguard_sentinel.Sql.{Unique, integer_limit}
use nexguard_sentinel.Sql.Laws.{map_if, key-find}
use nexguard_sentinel.Store.Rows.{Status, Db, Intent, intent_key, is_reserved}
use nexguard_sentinel.Store.Reserve.{add_audit}
use nexguard_sentinel.Store.Lifecycle.{prepare, reserved_row, set_prepared}
use nexguard_sentinel.Store.Lifecycle.Outcomes.{prepare_lem, prepared_db, found_in}
use nexguard_sentinel.Store.Calls.Found.{row, row-prepared}

-- The row of one intent is `r` now, the other intents are as they were, an entry is added to the
-- audit, and the other tables are as they were.
pub record Replaced (intent transition detail at : String) (r : Intent) (db db' : Db) : Type 0 where
  pub replaced : row intent db' ≡ some r
  pub others : (i : String) → i ≢ intent → row i db' ≡ row i db
  pub audit_id : ℕ
  pub audited :
      db'.audit
      ≡ (record {
        id = audit_id;
        at = at;
        intent_id = intent;
        transition = transition;
        detail = detail;
      })
        ∷ db.audit
  pub kept : db' ≡ record db { intents = db'.intents; audit = db'.audit }

module _ (p : Intent → Bool) (f : Intent → Intent) (intent : String) where
  pub missed :
      (i : String) (o : Option Intent)
      → ((r : Intent) → o ≡ some r → p r ≡ false)
      → map_if p f o ≡ o
  missed i none h = refl
  missed i (some r) h = rw (h r refl) refl

pub other_id :
    (i intent : String) (db : Db) (r : Intent)
    → i ≢ intent
    → row i db ≡ some r
    → (r.id == intent) ≡ false
other_id i intent db r different there =
    let same = key-find intent_key i db.intents r there in
    elim (Bool-cases (r.id == intent)) [
      | inl y ↦ absurd (different (let e : r.id ≡ intent = ground arith in sym same ∙ e))
      | inr n ↦ n
    ]

-- A nonce that SQLite can hold, and an intent that is reserved.
pub record IsPreparable (intent : String) (nonce : ℤ) (db : Db) : Type 0 where
  pub n : ℕ
  pub is_n : nonce ≡ pos n
  pub fits : n < 9223372036854775808
  pub intent_row : Intent
  pub there : row intent db ≡ some intent_row
  pub reserved : intent_row.status ≡ Status.reserved

prepared-Replaced :
    (intent : String) (n : ℕ) (fee_data at : String) (db : Db) (r : Intent)
    → row intent db ≡ some r
    → r.status ≡ Status.reserved
    → Replaced intent "prepared" "nonce and fee data persisted" at
        (record r { status = Status.prepared; nonce = some n; fee_data = some fee_data })
        db
        (prepared_db intent n fee_data at db)
unfolding add_audit
prepared-Replaced intent n fee_data at db r there h = record {
  replaced =
      row-prepared intent db intent n fee_data at
      ∙ (let same = key-find intent_key intent db.intents r there in rw there (ground arith));
  others = λ i different.
      row-prepared i db intent n fee_data at
      ∙ missed (reserved_row intent) (set_prepared n fee_data) intent i (row i db)
          (λ q e. rw (other_id i intent db q different e) refl);
  audit_id = _;
  audited = refl;
  kept = refl;
}

abbrev pub answer : Result (Unit {0}) × Db → Result (Unit {0})
answer p = p.0

abbrev pub left_db : Result (Unit {0}) × Db → Db
left_db p = p.1

is_reserved-eq : (s : Status) → is_reserved s ≡ true → s ≡ Status.reserved
is_reserved-eq Status.reserved h = refl
is_reserved-eq Status.prepared h = cc
is_reserved-eq Status.broadcast h = cc
is_reserved-eq Status.success h = cc
is_reserved-eq Status.reverted h = cc
is_reserved-eq Status.already_desired h = cc
is_reserved-eq Status.indeterminate h = cc

pub found_in-row :
    (q : Status → Bool) (o : Option Intent)
    → found_in q o ≡ true
    → (r : Intent) × (o ≡ some r) × (q r.status ≡ true)
found_in-row q none h = cc
found_in-row q (some r) h = (r, refl, h)

not_negative : (n : ℤ) → is_negative n ≡ false → n ≡ pos (pos_part n)
not_negative (pos n) h = refl
not_negative (negsuc n) h = cc

module _ (intent : String) (nonce : ℤ) (fee_data at : String) (db : Db)
    (u : Unique intent_key db.intents) where
  abbrev after_prepare : Result (Unit {0}) × Db
  after_prepare = prepare intent nonce fee_data at db

  prepare-cases :
      ((answer after_prepare ≢ ok tt) × (left_db after_prepare ≡ db)) ⊎ IsPreparable intent nonce db
  prepare-cases =
      let whole = prepare_lem intent nonce fee_data at db u in
      elim (Bool-cases (is_negative nonce)) [
        | inl bad ↦ inl (λ e. ground arith, ap left_db whole ∙ rw bad)
        | inr fine ↦ elim (Bool-cases (ltb (pos_part nonce) integer_limit)) [
          | inr big ↦ inl (λ e. ground arith, ap left_db whole ∙ rw (fine, big))
          | inl small ↦ elim (Bool-cases (found_in is_reserved (row intent db))) [
            | inr absent ↦ inl (λ e. ground arith, ap left_db whole ∙ rw (fine, small, absent))
            | inl found ↦
                let (r, there, reserved) = found_in-row is_reserved (row intent db) found in
                inr (record {
                  n = pos_part nonce;
                  is_n = not_negative nonce fine;
                  fits = ground arith;
                  intent_row = r;
                  there = there;
                  reserved = is_reserved-eq r.status reserved;
                })
          ]
        ]
      ]

  prepare-of_IsPreparable :
      (p : IsPreparable intent nonce db)
      → after_prepare ≡ (ok tt, prepared_db intent p.n fee_data at db)
  prepare-of_IsPreparable p =
      let small : ltb p.n integer_limit ≡ true = let h = p.fits in ground arith in
      prepare_lem intent nonce fee_data at db u ∙ rw (p.is_n, small, p.there, p.reserved) refl

  -- `prepare` succeeds exactly if the nonce is a number below 2^63 and no less than zero, and the
  -- intent is there and reserved. Then the row of the intent is prepared, with that nonce and the
  -- fee data, the audit has a new entry, and every other row of every table is as it was. A call
  -- that raises leaves the database as it was.
  pub prepare-exactly :
      ((answer after_prepare ≡ ok tt) ↔ IsPreparable intent nonce db)
      × ((p : IsPreparable intent nonce db)
          → Replaced intent "prepared" "nonce and fee data persisted" at
              (record p.intent_row {
                status = Status.prepared;
                nonce = some p.n;
                fee_data = some fee_data;
              })
              db
              (left_db after_prepare))
      × (answer after_prepare ≢ ok tt → left_db after_prepare ≡ db)
  prepare-exactly = (
    (
      λ h. elim prepare-cases [ inl (refused, same) ↦ absurd (refused h) | inr p ↦ p ],
      λ p. ap answer (prepare-of_IsPreparable p),
    ),
    λ p.
        rw (prepare-of_IsPreparable p)
          (prepared-Replaced intent p.n fee_data at db p.intent_row p.there p.reserved),
    λ h. elim prepare-cases [
      | inl (refused, same) ↦ same
      | inr p ↦ absurd (h (ap answer (prepare-of_IsPreparable p)))
    ],
  )
