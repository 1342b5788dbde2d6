-- ===== src/Store/Intake/Exactly.antt =====
-- When `ingest` writes an event, exactly, and that it changes nothing otherwise.
use nexguard_sentinel.Prelude.{
  ℕ, String, Bool, true, false, ◌||◌, none, some, ◌==◌, string_eq, nat_eq, nats_eq, ◌≡◌, refl, ◌∙◌,
  ap, ◌⊎◌, arith, ℤ, is_negative, pos_part, Bool-cases, Option-cases, inl, inr,
}
use nexguard_sentinel.Python.Exec.{
  Exception, Result, ok, err, transaction, transaction-ok, transaction-err,
}
use nexguard_sentinel.Python.Text.{Text}
use nexguard_sentinel.Python.Number.{str}
use nexguard_sentinel.Sql.{find, has}
use nexguard_sentinel.Sql.Laws.{has-eq-is_found, is_found}
use nexguard_sentinel.Store.Rows.{Db, Event, event_key}
use nexguard_sentinel.Store.Intake.{ingest_row, ingest_body, ingest}
use nexguard_sentinel.Store.Intake.Outcomes.{
  IsIngested, event_row, ingest_row-new, ingest_row-ok, Result-cases,
}

module _ (source event_id : String) (n block : ℕ) (payload : String) (db : Db) where
  abbrev body_result : Result Bool × Db
  body_result = transaction (ingest_body source event_id n block payload) db

  pub ingest_body-printed :
      (text : Text)
      → str n ≡ ok text
      → ingest_body source event_id n block payload db
        ≡ ingest_row
            (find event_key event_id db.events)
            (event_row source event_id text block payload)
            n
            db
  unfolding ingest_body
  ingest_body-printed text t = rw t

  ingest_body-unprinted :
      (e : Exception) → str n ≡ err e → (ingest_body source event_id n block payload db).0 ≡ err e
  unfolding ingest_body
  ingest_body-unprinted e t = rw t

  pub fresh-of_find :
      find event_key event_id db.events ≡ none → has event_key event_id db.events ≡ false
  fresh-of_find e = has-eq-is_found event_key event_id db.events ∙ ap is_found e

  pub ingest_body-new :
      (text : Text)
      → str n ≡ ok text
      → find event_key event_id db.events ≡ none
      → ingest_body source event_id n block payload db
        ≡ ingest_row none (event_row source event_id text block payload) n db
  ingest_body-new text t e =
      ingest_body-printed text t
      ∙ ap (λ o. ingest_row o (event_row source event_id text block payload) n db) e

  -- The transaction of a new event.
  new_event :
      (text : Text)
      → str n ≡ ok text
      → find event_key event_id db.events ≡ none
      → (r : Result Bool)
      → (ingest_row none (event_row source event_id text block payload) n db).0 ≡ r
      → (body_result.1 ≡ db)
        ⊎ ((body_result.0 ≡ ok true)
            × IsIngested (event_row source event_id text block payload) n db body_result.1)
  new_event text t e (err x) h =
      let raised = ap (λ (p : Result Bool × Db). p.0) (ingest_body-new text t e) ∙ h in
      inl (
        ap (λ (p : Result Bool × Db). p.1)
          (transaction-err (ingest_body source event_id n block payload) db raised))
  new_event text t e (ok b) h =
      let event = event_row source event_id text block payload in
      let fresh = fresh-of_find e in
      let (small, readable) = ingest_row-ok event n db fresh b h in
      let done =
        transaction-ok (ingest_body source event_id n block payload) db
          (ingest_body-new text t e ∙ ingest_row-new event n db fresh small readable) in
      inr (
        ap (λ (p : Result Bool × Db). p.0) done,
        record {
          fresh = fresh;
          printed = t;
          small = small;
          readable = readable;
          written = ap (λ (p : Result Bool × Db). p.1) done;
        },
      )

  -- The transaction of an event that is there.
  old_event :
      (text : Text) (old : Event)
      → str n ≡ ok text
      → find event_key event_id db.events ≡ some old
      → body_result.1 ≡ db
  unfolding ingest_row
  old_event text old t e = ground (arith, ingest_body-printed text t, e)

  ingest_body-cases :
      (body_result.1 ≡ db)
      ⊎ ((text : Text) × (body_result.0 ≡ ok true)
          × IsIngested (event_row source event_id text block payload) n db body_result.1)
  ingest_body-cases = elim (Result-cases (str n)) [
    | inl (x, t) ↦ inl (
        ap (λ (p : Result Bool × Db). p.1)
          (transaction-err (ingest_body source event_id n block payload) db
            (ingest_body-unprinted x t)))
    | inr (text, t) ↦ elim (Option-cases (find event_key event_id db.events)) [
      | inl e ↦ with_text text (new_event text t e _ refl)
      | inr (old, e) ↦ inl (old_event text old t e)
    ]
  ]
    where
      with_text :
          (text : Text)
          → (body_result.1 ≡ db)
            ⊎ ((body_result.0 ≡ ok true)
                × IsIngested (event_row source event_id text block payload) n db body_result.1)
          → (body_result.1 ≡ db)
            ⊎ ((text : Text) × (body_result.0 ≡ ok true)
                × IsIngested (event_row source event_id text block payload) n db body_result.1)
      with_text text (inl same) = inl same
      with_text text (inr (done, written)) = inr (text, done, written)

module _ (source event_id : String) (sequence block : ℤ) (payload : String) (db : Db) where
  -- A call leaves the database as it was, or returns True having written the new event.
  pub ingest-cases :
      ((ingest source event_id sequence block payload db).1 ≡ db)
      ⊎ ((text : Text) × ((ingest source event_id sequence block payload db).0 ≡ ok true)
          × IsIngested
              (event_row source event_id text (pos_part block) payload)
              (pos_part sequence)
              db
              (ingest source event_id sequence block payload db).1)
  unfolding ingest
  ingest-cases =
      elim (Bool-cases
        (is_negative sequence || is_negative block || source == "" || event_id == "")) [
          | inl bad ↦ inl (rw bad)
          | inr fine ↦
              rw fine
                (ingest_body-cases source event_id (pos_part sequence) (pos_part block) payload db)
        ]
