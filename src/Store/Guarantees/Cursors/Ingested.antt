-- ===== src/Store/Guarantees/Cursors/Ingested.antt =====
-- The cursors and the events that `ingest` leaves.
use nexguard_sentinel.Prelude.{
  ℕ, String, Bool, true, false, Option, none, some, ◌==◌, string_eq, if◌then◌else◌, ◌≡◌, refl, ◌∙◌,
  arith, inl, inr, Bool-cases, ◌≤◌, ◌<◌, pos,
}
use nexguard_sentinel.Python.Exec.{ok}
use nexguard_sentinel.Python.Text.{Text}
use nexguard_sentinel.Python.Number.{str, int}
use nexguard_sentinel.Python.Number.RoundTrip.{int-str}
use nexguard_sentinel.Sql.{find, has}
use nexguard_sentinel.Sql.Laws.{find-replace, has-eq-is_found}
use nexguard_sentinel.Store.Rows.{Db, Event, Cursor, event_key, cursor_key}
use nexguard_sentinel.Store.Intake.{put_cursor}
use nexguard_sentinel.Store.Intake.Outcomes.{ingested_db, moves, cursor_of}

abbrev pub event_at : String → Db → Option Event
event_at id db = find event_key id db.events

abbrev pub cursor_at : String → Db → Option Cursor
cursor_at source db = find cursor_key source db.cursors

eq_self : (s : String) → (s == s) ≡ true
eq_self s = ground arith

cursor-put :
    (c : Cursor) (s : String) (db : Db)
    → cursor_at s (put_cursor c db) ≡ (if c.source == s then some c else cursor_at s db)
unfolding put_cursor find
cursor-put c s db = ground (arith, find-replace cursor_key c s db.cursors)

cursor-ingested :
    (event : Event) (n : ℕ) (s : String) (db : Db)
    → cursor_at s (ingested_db event n db) ≡ (
        if moves n (cursor_at event.source db)
        then if event.source == s then some (cursor_of event) else cursor_at s db
        else cursor_at s db)
cursor-ingested event n s db = elim (Bool-cases (moves n (cursor_at event.source db))) [
  | inl t ↦ rw t (cursor-put (cursor_of event) s _)
  | inr f ↦ rw f
]

pub event-ingested :
    (event : Event) (n : ℕ) (id : String) (db : Db)
    → event_at id (ingested_db event n db) ≡ (if event.id == id then some event else event_at id db)
unfolding put_cursor find
event-ingested event n id db = ground arith

-- A text that stands for a number.
abbrev pub Reads : Text → ℕ → Type 0
Reads t n = int 10 t ≡ some (pos n)

-- A cursor at least as far on as an event.
abbrev pub Covers : Option Cursor → Event → Type 0
Covers none e = ⊥
Covers (some c) e = (m : ℕ) × (n : ℕ) × Reads e.sequence m × Reads c.sequence n × (m ≤ n)

abbrev pub CoveredAt : Db → Option Event → Type 0
CoveredAt db none = Unit
CoveredAt db (some e) = Covers (cursor_at e.source db) e

-- A cursor that can be read, at the position of an event of its source.
abbrev pub Attained : Db → String → Option Cursor → Type 0
Attained db s none = Unit
Attained db s (some c) =
    (n : ℕ) × (id : String) × (e : Event) × Reads c.sequence n
    × (event_at id db ≡ some e)
    × (e.source ≡ s)
    × (e.sequence ≡ c.sequence)
    × (e.block_number ≡ c.block_number)

pub record CursorsExact (db : Db) : Type 0 where
  pub covered : (id : String) → CoveredAt db (event_at id db)
  pub attained : (s : String) → Attained db s (cursor_at s db)

module _ (event : Event) (n : ℕ) (db : Db) (printed : str n ≡ ok event.sequence) where
  abbrev db' : Db
  db' = ingested_db event n db

  event-Reads : Reads event.sequence n
  event-Reads = int-str n event.sequence printed

  cursor-moved :
      (s : String)
      → moves n (cursor_at event.source db) ≡ true
      → cursor_at s db' ≡ (if event.source == s then some (cursor_of event) else cursor_at s db)
  cursor-moved s t = cursor-ingested event n s db ∙ rw t

  cursor-stayed :
      (s : String) → moves n (cursor_at event.source db) ≡ false → cursor_at s db' ≡ cursor_at s db
  cursor-stayed s f = cursor-ingested event n s db ∙ rw f

  Covers-self : Covers (some (cursor_of event)) event
  Covers-self = (n, n, event-Reads, event-Reads, omega arith)

  moves-of_none : (o : Option Cursor) → o ≡ none → moves n o ≡ true
  moves-of_none o e = rw e

  -- A cursor that does not move is as far on already.
  stays-le :
      (o : Option Cursor) (c : Cursor) (k : ℕ)
      → o ≡ some c
      → Reads c.sequence k
      → moves n o ≡ false
      → n ≤ k
  stays-le o c k e r f = ground arith

  moves-lt :
      (o : Option Cursor) (c : Cursor) (k : ℕ)
      → o ≡ some c
      → Reads c.sequence k
      → moves n o ≡ true
      → k < n
  moves-lt o c k e r t = ground arith

  -- The new event is covered: the cursor has moved to it, or was as far on.
  Covers-new :
      (o : Option Cursor)
      → cursor_at event.source db ≡ o
      → Attained db event.source o
      → Covers (cursor_at event.source db') event
  Covers-new o e h = elim (Bool-cases (moves n (cursor_at event.source db))) [
    | inl t ↦ rw (cursor-moved event.source t, eq_self) Covers-self
    | inr f ↦ rw (cursor-stayed event.source f) (stayed o e h f)
  ]
    where
      stayed :
          (o : Option Cursor)
          → cursor_at event.source db ≡ o
          → Attained db event.source o
          → moves n (cursor_at event.source db) ≡ false
          → Covers (cursor_at event.source db) event
      stayed none e h f = cc (moves-of_none (cursor_at event.source db) e)
      stayed (some c) e h f =
          rw e (n, h.0, event-Reads, h.3, stays-le (cursor_at event.source db) c h.0 e h.3 f)

  -- An event that was covered still is.
  Covers-old :
      (e : Event) (o : Option Cursor)
      → cursor_at e.source db ≡ o
      → Covers o e
      → Covers (cursor_at e.source db') e
  Covers-old e none x h = absurd h
  Covers-old e (some c) x (m, k, re, rc, le) =
      elim (Bool-cases (moves n (cursor_at event.source db))) [
        | inr f ↦ rw (cursor-stayed e.source f, x) (m, k, re, rc, le)
        | inl t ↦ elim (Bool-cases (event.source == e.source)) [
          | inr other ↦ rw (cursor-moved e.source t, other, x) (m, k, re, rc, le)
          | inl same ↦
              rw (cursor-moved e.source t, same)
                (
                  m,
                  n,
                  re,
                  event-Reads,
                  (let behind = moves-lt (cursor_at event.source db) c k (ground (arith, x)) rc t in
                      omega arith),
                )
        ]
      ]

  Attained-new : (s : String) → event.source ≡ s → Attained db' s (some (cursor_of event))
  Attained-new s e = (
    n,
    event.id,
    event,
    event-Reads,
    event-ingested event n event.id db ∙ rw eq_self,
    e,
    refl,
    refl,
  )

  Attained-old :
      (s : String) (o : Option Cursor)
      → has event_key event.id db.events ≡ false
      → Attained db s o
      → Attained db' s o
  Attained-old s none fresh h = tt
  Attained-old s (some c) fresh (k, id, e, r, at, source, sequence, block) = (
    k,
    id,
    e,
    r,
    event-ingested event n id db ∙ ground (arith, has-eq-is_found event_key event.id db.events, at),
    source,
    sequence,
    block,
  )

  pub Attained-ingested :
      (s : String)
      → has event_key event.id db.events ≡ false
      → Attained db s (cursor_at s db)
      → Attained db' s (cursor_at s db')
  Attained-ingested s fresh h = elim (Bool-cases (moves n (cursor_at event.source db))) [
    | inr f ↦ rw (cursor-stayed s f) (Attained-old s (cursor_at s db) fresh h)
    | inl t ↦ elim (Bool-cases (event.source == s)) [
      | inr other ↦ rw (cursor-moved s t, other) (Attained-old s (cursor_at s db) fresh h)
      | inl same ↦ rw (cursor-moved s t, same) (Attained-new s (ground arith))
    ]
  ]

  pub Covered-ingested : (id : String) → CursorsExact db → CoveredAt db' (event_at id db')
  Covered-ingested id h =
      rw (event-ingested event n id db) (go (event.id == id) (event_at id db) (h.covered id))
    where
      go :
          (b : Bool) (o : Option Event)
          → CoveredAt db o
          → CoveredAt db' (if b then some event else o)
      go true o c = Covers-new (cursor_at event.source db) refl (h.attained event.source)
      go false none c = tt
      go false (some e) c = Covers-old e (cursor_at e.source db) refl c
