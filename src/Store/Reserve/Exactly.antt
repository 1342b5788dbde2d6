-- ===== src/Store/Reserve/Exactly.antt =====
-- When `reserve` succeeds, exactly, and that it changes nothing otherwise.
use nexguard_sentinel.Prelude.{
  String, true, false, none, List, [], ◌∷◌, string_eq, has_duplicates, ◌≡◌, ◌∙◌, refl, ◌≢◌, ◌↔◌, ap,
  arith, Bool-cases, inl, inr,
}
use nexguard_sentinel.Python.Exec.{ok}
use nexguard_sentinel.Sql.{has}
use nexguard_sentinel.Store.Rows.{Db, incident_key, intent_key}
use nexguard_sentinel.Store.Reserve.{
  check_events, has_unfinished, write_reservation, may_reserve, reserve_body, is_empty, reserve,
}
use nexguard_sentinel.Store.Reserve.Writes.{
  AreFree, reserved_db, check_events-AreFree, write_reservation-taken, write_reservation-free,
}

-- What a reservation needs of its arguments and of the database.
pub record IsReservable (intent incident : String) (events : List String) (db : Db) : Type 0 where
  pub intent_named : intent ≢ ""
  pub incident_named : incident ≢ ""
  pub some_event : events ≢ []
  pub distinct : has_duplicates events ≡ false
  pub unlatched : db.latch ≡ none
  pub idle : has_unfinished db.intents ≡ false
  pub new_intent : has intent_key intent db.intents ≡ false
  pub new_incident : has incident_key incident db.incidents ≡ false
  pub free : AreFree events db

AreFree-check_events :
    (events : List String) (db : Db) → AreFree events db → check_events events db ≡ ok true
unfolding check_events
AreFree-check_events [] db h = refl
AreFree-check_events (e ∷ events) db h = ground (arith, AreFree-check_events events db)

is_empty-false : (events : List String) → is_empty events ≡ false → events ≢ []
is_empty-false [] h e = cc
is_empty-false (_ ∷ _) h e = cc

is_empty-of_ne_nil : (events : List String) → events ≢ [] → is_empty events ≡ false
is_empty-of_ne_nil [] h = absurd (h refl)
is_empty-of_ne_nil (_ ∷ _) h = refl

may_reserve-allowed :
    (intent : String) (events : List String) (db : Db)
    → may_reserve intent events db ≡ ok true
    → (db.latch ≡ none)
      × (has_unfinished db.intents ≡ false)
      × (has intent_key intent db.intents ≡ false)
      × (check_events events db ≡ ok true)
unfolding may_reserve
may_reserve-allowed intent events db h = ground arith

module _ (intent incident : String) (events : List String) (now at : String) (db : Db) where
  reserve_body-of_allowed :
      may_reserve intent events db ≡ ok true
      → reserve_body intent incident events now at db
        ≡ write_reservation intent incident events now at db
  unfolding reserve_body
  reserve_body-of_allowed h = rw h

  allowed-of_reserve_body :
      (reserve_body intent incident events now at db).0 ≡ ok true
      → may_reserve intent events db ≡ ok true
  unfolding reserve_body
  allowed-of_reserve_body h = ground arith

  new_incident-of_reserve_body :
      (reserve_body intent incident events now at db).0 ≡ ok true
      → has incident_key incident db.incidents ≡ false
  new_incident-of_reserve_body h = elim (Bool-cases (has incident_key incident db.incidents)) [
    | inl taken ↦ cc (
      h,
      reserve_body-of_allowed (allowed-of_reserve_body h),
      write_reservation-taken intent incident events now at db taken,
    )
    | inr new ↦ new
  ]

  arguments-of_reserve :
      (reserve intent incident events now at db).0 ≡ ok true
      → (intent ≢ "")
        × (incident ≢ "")
        × (is_empty events ≡ false)
        × (has_duplicates events ≡ false)
        × ((reserve_body intent incident events now at db).0 ≡ ok true)
  unfolding reserve
  arguments-of_reserve h = ground arith

  -- A reservation that returns True had everything that it needs.
  pub reserve-IsReservable :
      (reserve intent incident events now at db).0 ≡ ok true
      → IsReservable intent incident events db
  reserve-IsReservable h =
      let (named, named', some_event, distinct, done) = arguments-of_reserve h in
      let (latch, idle, fresh, checked) =
        may_reserve-allowed intent events db (allowed-of_reserve_body done) in
      record {
        intent_named = named;
        incident_named = named';
        some_event = is_empty-false events some_event;
        distinct = distinct;
        unlatched = latch;
        idle = idle;
        new_intent = fresh;
        new_incident = new_incident-of_reserve_body done;
        free = check_events-AreFree events db checked;
      }

  allowed-of_IsReservable :
      IsReservable intent incident events db → may_reserve intent events db ≡ ok true
  unfolding may_reserve
  allowed-of_IsReservable h =
      simp (h.unlatched, h.idle, h.new_intent, AreFree-check_events events db h.free)

  reserve_body-of_IsReservable :
      IsReservable intent incident events db
      → reserve_body intent incident events now at db
        ≡ (ok true, reserved_db intent incident events now at db)
  reserve_body-of_IsReservable h =
      reserve_body-of_allowed (allowed-of_IsReservable h)
      ∙ write_reservation-free intent incident events now at db h.new_incident h.new_intent
          h.distinct h.free

  -- With everything that it needs, `reserve` returns True and writes the whole reservation.
  pub reserve-of_IsReservable :
      IsReservable intent incident events db
      → reserve intent incident events now at db
        ≡ (ok true, reserved_db intent incident events now at db)
  unfolding reserve
  reserve-of_IsReservable h = ground (
    arith,
    h.intent_named,
    h.incident_named,
    h.distinct,
    is_empty-of_ne_nil events h.some_event,
    reserve_body-of_IsReservable h,
  )

  reserve_body-refused :
      (reserve_body intent incident events now at db).0 ≡ ok false
      → (reserve_body intent incident events now at db).1 ≡ db
  unfolding reserve_body write_reservation
  reserve_body-refused h = ground arith

  -- A reservation that returns False or raises leaves the database as it was.
  pub reserve-unchanged :
      (reserve intent incident events now at db).0 ≢ ok true
      → (reserve intent incident events now at db).1 ≡ db
  unfolding reserve
  reserve-unchanged h = ground (arith, reserve_body-refused)

  -- A reservation returns True exactly if it has everything that it needs: the names, some events,
  -- each of them once, known and free, new rows for the incident and the intent, no latch and no
  -- intent that is unfinished. Then all of its rows are written, and otherwise nothing is.
  pub reserve-exactly :
      ((reserve intent incident events now at db).0 ≡ ok true
        ↔ IsReservable intent incident events db)
      × (IsReservable intent incident events db
          → (reserve intent incident events now at db).1
            ≡ reserved_db intent incident events now at db)
      × ((reserve intent incident events now at db).0 ≢ ok true
          → (reserve intent incident events now at db).1 ≡ db)
  reserve-exactly = (
    (reserve-IsReservable, λ k. ap (λ r. r.0) (reserve-of_IsReservable k)),
    λ k. ap (λ r. r.1) (reserve-of_IsReservable k),
    reserve-unchanged,
  )
