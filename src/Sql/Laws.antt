-- ===== src/Sql/Laws.antt =====
-- How the statements act on what a lookup by primary key returns.
use nexguard_sentinel.Prelude.{
  ℕ, String, Bool, true, false, ◌&&◌, Option, none, some, List, [], ◌∷◌, ◌==◌, string_eq,
  if◌then◌else◌, ◌≡◌, refl, arith,
}
use nexguard_sentinel.Python.Exec.{ok, err, integrity_error}
use nexguard_sentinel.Sql.{find, has, insert, Unique, exists, count, update}

abbrev pub map_if {ℓ} : {A : Type ℓ} → (A → Bool) → (A → A) → Option A → Option A
map_if p f none = none
map_if p f (some r) = some (if p r then f r else r)

abbrev pub is_found {ℓ} : {A : Type ℓ} → Option A → Bool
is_found none = false
is_found (some _) = true

module _ {A : Type 0} (key : A → String) where
  pub has-eq-is_found : (k : String) (rows : List A) → has key k rows ≡ is_found (find key k rows)
  unfolding has find
  has-eq-is_found k [] = refl
  has-eq-is_found k (r ∷ rows) = ground (arith, has-eq-is_found k rows)

  pub has_self : (r : A) (rows : List A) → has key (key r) (r ∷ rows) ≡ true
  unfolding has
  has_self r rows = ground arith

  pub insert_fresh :
      (r : A) (rows : List A) → has key (key r) rows ≡ false → insert key r rows ≡ ok (r ∷ rows)
  unfolding insert
  insert_fresh r rows h = rw h

  pub insert_taken :
      (r : A) (rows : List A)
      → has key (key r) rows ≡ true
      → insert key r rows ≡ err integrity_error
  unfolding insert
  insert_taken r rows h = rw h

  pub key-find : (k : String) (rows : List A) (r : A) → find key k rows ≡ some r → key r ≡ k
  unfolding find
  key-find k [] r h = cc
  key-find k (x ∷ rows) r h = ground (arith, key-find k rows r)

  pub find-update :
      (p : A → Bool) (f : A → A) (k : String) (rows : List A)
      → ((r : A) → key (f r) ≡ key r)
      → find key k (update p f rows) ≡ map_if p f (find key k rows)
  unfolding find update
  find-update p f k [] keep = refl
  find-update p f k (r ∷ rows) keep = ground (arith, keep r, find-update p f k rows keep)

  pub has-update :
      (p : A → Bool) (f : A → A) (k : String) (rows : List A)
      → ((r : A) → key (f r) ≡ key r)
      → has key k (update p f rows) ≡ has key k rows
  unfolding has update
  has-update p f k [] keep = refl
  has-update p f k (r ∷ rows) keep = ground (arith, keep r, has-update p f k rows keep)

  pub Unique-update :
      (p : A → Bool) (f : A → A) (rows : List A)
      → ((r : A) → key (f r) ≡ key r)
      → Unique key rows
      → Unique key (update p f rows)
  unfolding update
  Unique-update p f [] keep u = tt
  Unique-update p f (r ∷ rows) keep (fresh, u) = ground (
    arith,
    keep r,
    has-update p f (key r) rows keep,
    has-update p f (key (f r)) rows keep,
    Unique-update p f rows keep u,
  )

  -- A row that a lookup returns passes no test that no row passes.
  pub find-of_not_exists :
      (p : A → Bool) (k : String) (rows : List A) (r : A)
      → exists p rows ≡ false
      → find key k rows ≡ some r
      → p r ≡ false
  unfolding exists find
  find-of_not_exists p k [] r none_such h = cc
  find-of_not_exists p k (x ∷ rows) r none_such h = ground (arith, find-of_not_exists p k rows r)

  -- Conversely, a lookup of its own key finds a row that passes the test, where keys are unique.
  pub exists-of_find :
      (p : A → Bool) (k : String) (rows : List A) (r : A)
      → find key k rows ≡ some r
      → p r ≡ true
      → exists p rows ≡ true
  unfolding exists find
  exists-of_find p k [] r h t = cc
  exists-of_find p k (x ∷ rows) r h t = ground (arith, exists-of_find p k rows r)

  abbrev pub count_of : (A → Bool) → Option A → ℕ
  count_of p none = 0
  count_of p (some r) = if p r then 1 else 0

  count_absent :
      (p : A → Bool) (k : String) (rows : List A)
      → has key k rows ≡ false
      → count (λ r. key r == k && p r) rows ≡ 0
  unfolding count has
  count_absent p k [] h = refl
  count_absent p k (r ∷ rows) h = ground (arith, count_absent p k rows)

  -- The row count of an UPDATE by primary key and a test.
  pub count-eq-count_of :
      (p : A → Bool) (k : String) (rows : List A)
      → Unique key rows
      → count (λ r. key r == k && p r) rows ≡ count_of p (find key k rows)
  unfolding count find
  count-eq-count_of p k [] u = refl
  count-eq-count_of p k (r ∷ rows) (fresh, u) =
      ground (arith, count_absent p k rows, count-eq-count_of p k rows u)

  -- UPDATE by primary key with a whole row of that key
  pub find-replace :
      (c : A) (k : String) (rows : List A)
      → find key k (update (λ r. key r == key c) (λ _. c) rows) ≡ (
          if has key (key c) rows
          then if key c == k then some c else find key k rows
          else find key k rows)
  unfolding find has update
  find-replace c k [] = refl
  find-replace c k (r ∷ rows) = ground (arith, find-replace c k rows)
