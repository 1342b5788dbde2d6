-- ===== src/Sql.antt =====
-- The SQLite statements that the store issues, on a table held as the list of its rows, newest
-- first. `key` reads a row's primary key.
pub mod Laws
use nexguard_sentinel.Prelude.{
  ℕ, suc, ◌+◌, String, Bool, true, false, ◌||◌, Option, none, some, List, [], ◌∷◌, ◌==◌, string_eq,
  if◌then◌else◌, leb, ltb, max, ◌≡◌,
}
use nexguard_sentinel.Python.Exec.{Result, ok, err, integrity_error, overflow_error}

module _ {A : Type 0} (key : A → String) where
  -- SELECT * FROM t WHERE key=?
  unfoldable pub find : String → List A → Option A
  find k [] = none
  find k (r ∷ rows) = if key r == k then some r else find k rows

  -- SELECT 1 FROM t WHERE key=?
  unfoldable pub has : String → List A → Bool
  has k [] = false
  has k (r ∷ rows) = key r == k || has k rows

  -- INSERT INTO t VALUES(…): a second row of one primary key is refused.
  unfoldable pub insert : A → List A → Result (List A)
  unfolding has
  insert r rows = if has (key r) rows then err integrity_error else ok (r ∷ rows)

  -- No two rows share a primary key.
  abbrev pub Unique : List A → Type 0
  Unique [] = Unit
  Unique (r ∷ rows) = (has (key r) rows ≡ false) × Unique rows

module _ {A : Type 0} (p : A → Bool) where
  -- SELECT 1 FROM t WHERE p
  unfoldable pub exists : List A → Bool
  exists [] = false
  exists (r ∷ rows) = p r || exists rows

  -- The row count of an UPDATE … WHERE p
  unfoldable pub count : List A → ℕ
  count [] = 0
  count (r ∷ rows) = (if p r then 1 else 0) + count rows

  -- UPDATE t SET … WHERE p
  unfoldable pub update : (A → A) → List A → List A
  update f [] = []
  update f (r ∷ rows) = (if p r then f r else r) ∷ update f rows

-- The key that SQLite gives a row inserted without one: one more than the largest in use.
unfoldable pub next_id : {A : Type 0} → (A → ℕ) → List A → ℕ
next_id id [] = 1
next_id id (r ∷ rows) = max (suc (id r)) (next_id id rows)

-- Binding a Python integer that is not negative to a statement. An INTEGER column is 64 bits wide
-- and signed, and a larger number raises `OverflowError`.
abbrev pub integer_limit : ℕ
integer_limit = 9223372036854775808

unfoldable pub bind_integer : ℕ → Result ℕ
bind_integer n = if ltb n integer_limit then ok n else err overflow_error
