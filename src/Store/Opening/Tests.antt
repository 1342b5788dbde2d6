-- ===== src/Store/Opening/Tests.antt =====
-- A file that is opened twice.
use nexguard_sentinel.Prelude.{List, [], ◌∷◌, some, pos, nat_eq, nats_eq, ◌≡◌, refl}
use nexguard_sentinel.Python.Exec.{ok}
use nexguard_sentinel.Python.Text.{Text, codes}
use nexguard_sentinel.Store.Rows.{empty}
use nexguard_sentinel.Store.Calls.{Call, runs}
use nexguard_sentinel.Store.Opening.{
  FileEvent, opens, calls, calls_of, open_store, new_file, file_after, file_after-opened,
}

abbrev path : Text
path = codes "state.sqlite3"

abbrev events : List FileEvent
events =
    calls (Call.ingest "vault" "e1" (pos 12) (pos 103) "{}")
    ∷ opens path (ok tt)
    ∷ opens (codes ":memory:") (ok tt)
    ∷ calls (Call.reserve "i1" "n1" ("e1" ∷ []) "t" "t")
    ∷ []

opened : (open_store path (ok tt) new_file).0 ≡ ok tt
unfolding open_store nat_eq nats_eq
opened = refl

file_after-opened_example :
    (file_after events (open_store path (ok tt) new_file).1).tables
    ≡ some (runs (calls_of events) empty)
file_after-opened_example = file_after-opened path (ok tt) events opened
