-- ===== src/Store/Opening.antt =====
-- The constructor of `StateStore`, and processes that open the file again. Each method opens a
-- connection of its own, whose pragmas change nothing of what is stored. A file of another program
-- is one with another version.
mod Tests
use nexguard_sentinel.Prelude.{
  Bool-cases, inl, inr, arith, Option, none, some, List, [], ◌∷◌, ◌++◌, Bool, ◌||◌, ◌==◌, nats_eq,
  ℤ, pos, negsuc, if◌then◌else◌, ◌≡◌, refl, nat_eq, false, ap, ◌∙◌,
}
use nexguard_sentinel.Python.Exec.{
  Result, ok, err, value_error, Exec, lift, refuse_if, ◌>>=◌, ◌>>◌, modify,
}
use nexguard_sentinel.Python.Text.{Text, codes}
use nexguard_sentinel.Store.Rows.{Db, empty}
use nexguard_sentinel.Store.Calls.{Call, run, runs}

-- The file: its `user_version`, and its tables once they have been created. SQLite gives a new file
-- the version 0.
pub record StateFile : Type 0 where
  pub version : ℤ
  pub tables : Option Db

abbrev pub new_file : StateFile
new_file = record { version = pos 0; tables = none }

-- version in (0, 1)
abbrev pub is_supported : ℤ → Bool
is_supported (pos n) = n == 0 || n == 1
is_supported (negsuc n) = false

-- CREATE TABLE IF NOT EXISTS …
abbrev pub with_schema : Option Db → Db
with_schema none = empty
with_schema (some db) = db

-- `__init__`, with what `mkdir` returns
unfoldable pub open_store : Text → Result (Unit {0}) → Exec StateFile (Unit {0})
open_store path made = do
  refuse_if (path == codes ":memory:") (value_error "In-memory state is not durable")
  lift made
  λ f.
      if is_supported f.version
      then (ok tt, record { version = pos 1; tables = some (with_schema f.tables) })
      else (err (value_error "Unsupported state schema version"), f)

-- What happens to the file: a process opens it, or calls a method of a store that it has opened.
pub data FileEvent : Type 0 where
  opens : Text → Result (Unit {0}) → FileEvent
  calls : Call → FileEvent

-- A store that has been opened has its tables.
unfoldable pub call_on : Call → Option Db → Option Db
call_on c none = none
call_on c (some db) = some (run c db)

abbrev pub on_file : FileEvent → StateFile → StateFile
on_file (opens path made) f = (open_store path made f).1
on_file (calls c) f = record f { tables = call_on c f.tables }

unfoldable pub file_after : List FileEvent → StateFile → StateFile
file_after [] f = f
file_after (e ∷ events) f = file_after events (on_file e f)

-- The calls among the events.
abbrev pub calls_of : List FileEvent → List Call
calls_of [] = []
calls_of (opens path made ∷ events) = calls_of events
calls_of (calls c ∷ events) = c ∷ calls_of events

-- An opening leaves tables as they are.
open_store-tables :
    (path : Text) (made : Result (Unit {0})) (f : StateFile) (db : Db)
    → f.tables ≡ some db
    → (open_store path made f).1.tables ≡ some db
unfolding open_store
open_store-tables path (err e) f db h = elim (Bool-cases (path == codes ":memory:")) [
  | inl y ↦ rw y h
  | inr n ↦ rw n h
]
open_store-tables path (ok _) f db h = elim (Bool-cases (path == codes ":memory:")) [
  | inl y ↦ rw y h
  | inr n ↦ elim (Bool-cases (is_supported f.version)) [
    | inl y ↦ rw (n, y) (ap (λ t. some (with_schema t)) h)
    | inr o ↦ rw (n, o) h
  ]
]

file_after-runs :
    (events : List FileEvent) (f : StateFile) (db : Db)
    → f.tables ≡ some db
    → (file_after events f).tables ≡ some (runs (calls_of events) db)
unfolding file_after runs call_on
file_after-runs [] f db h = h
file_after-runs (opens path made ∷ events) f db h =
    file_after-runs events _ db (open_store-tables path made f db h)
file_after-runs (calls c ∷ events) f db h = file_after-runs events _ (run c db) (ap (call_on c) h)

open_store-new :
    (path : Text) (made : Result (Unit {0}))
    → (open_store path made new_file).0 ≡ ok tt
    → (open_store path made new_file).1.tables ≡ some empty
unfolding open_store nat_eq
open_store-new path (err e) h = absurd (ground arith)
open_store-new path (ok _) h = elim (Bool-cases (path == codes ":memory:")) [
  | inl y ↦ absurd (ground arith)
  | inr n ↦ rw n refl
]

-- Once a new file has been opened, it holds what the calls since then leave of an empty database,
-- however often processes open it in between, with success or not: what holds after any sequence of
-- calls holds across restarts.
pub file_after-opened :
    (path : Text) (made : Result (Unit {0})) (events : List FileEvent)
    → (open_store path made new_file).0 ≡ ok tt
    → (file_after events (open_store path made new_file).1).tables
      ≡ some (runs (calls_of events) empty)
file_after-opened path made events h = file_after-runs events _ empty (open_store-new path made h)
