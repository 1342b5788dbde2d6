-- ===== src/Store/Guarantees/Broadcasting.antt =====
-- When `broadcast` lets a transaction go on, and what it leaves in the database.
use nexguard_sentinel.Prelude.{String, true, some, string_eq, nat_eq, length, ◌≡◌, ℤ}
use nexguard_sentinel.Python.Exec.{Result}
use nexguard_sentinel.Python.Text.{codes, starts_with_0x}
use nexguard_sentinel.Python.Number.{int}
use nexguard_sentinel.Sql.{Unique}
use nexguard_sentinel.Store.Rows.{Status, Db, Intent, intent_key}
use nexguard_sentinel.Store.Lifecycle.{broadcast, after_prefix}
use nexguard_sentinel.Store.Calls.Found.{row}

-- A text of the shape of a transaction hash, and an intent that is prepared.
pub record IsBroadcastable (intent tx_hash : String) (db : Db) : Type 0 where
  pub long : length (codes tx_hash) ≡ 66
  pub prefixed : starts_with_0x (codes tx_hash) ≡ true
  pub n : ℤ
  pub is_n : int 16 (after_prefix (codes tx_hash)) ≡ some n
  pub intent_row : Intent
  pub there : row intent db ≡ some intent_row
  pub prepared : intent_row.status ≡ Status.prepared

module _ (intent tx_hash at : String) (db : Db) (u : Unique intent_key db.intents) where
  abbrev after_broadcast : Result (Unit {0}) × Db
  after_broadcast = broadcast intent tx_hash at db
