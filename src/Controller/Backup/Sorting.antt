-- ===== src/Controller/Backup/Sorting.antt =====
-- The order of names, and sorting.
use nexguard_sentinel.Prelude.{
  true, false, ◌||◌, ◌==◌, contains, nats_eq, some, List, [], ◌∷◌, All, All-map, ◌≡◌, refl, ap, ◌∙◌,
  arith, Bool-cases, inl, inr,
}
use nexguard_sentinel.Python.Text.{Text}
use nexguard_sentinel.Controller.Backup.{text_le, insert_name, sort_names, last}

text_le_total : (a b : Text) → text_le a b ≡ false → text_le b a ≡ true
unfolding text_le
text_le_total [] b h = absurd (ground arith)
text_le_total (x ∷ a) [] h = refl
text_le_total (x ∷ a) (y ∷ b) h = ground (arith, text_le_total a b)

text_le_trans : (a b c : Text) → text_le a b ≡ true → text_le b c ≡ true → text_le a c ≡ true
unfolding text_le
text_le_trans [] b c h k = refl
text_le_trans (x ∷ a) [] c h k = absurd (ground arith)
text_le_trans (x ∷ a) (y ∷ b) [] h k = absurd (ground arith)
text_le_trans (x ∷ a) (y ∷ b) (z ∷ c) h k = ground (arith, text_le_trans a b c)

abbrev Below : Text → List Text → Type 0
Below m names = All (λ n. text_le n m ≡ true) names

abbrev Above : Text → List Text → Type 0
Above m names = All (λ n. text_le m n ≡ true) names

-- Each name is below all that come after it.
pub IsSorted : List Text → Type 0
IsSorted [] = Unit
IsSorted (n ∷ names) = Above n names × IsSorted names

insert_name-Above :
    (m n : Text) (names : List Text)
    → text_le m n ≡ true
    → Above m names
    → Above m (insert_name n names)
unfolding insert_name
insert_name-Above m n [] h a = (h, tt)
insert_name-Above m n (x ∷ names) h a = elim (Bool-cases (text_le n x)) [
  | inl t ↦ rw t (h, a)
  | inr f ↦ rw f (a.0, insert_name-Above m n names h a.1)
]

insert_name-IsSorted :
    (n : Text) (names : List Text) → IsSorted names → IsSorted (insert_name n names)
unfolding insert_name IsSorted
insert_name-IsSorted n [] s = (tt, tt)
insert_name-IsSorted n (x ∷ names) s = elim (Bool-cases (text_le n x)) [
  | inl t ↦ rw t (
    (
      t,
      All-map (λ m. text_le x m ≡ true) (λ m. text_le n m ≡ true) names (λ m. text_le_trans n x m t)
          s.0,
    ),
    s,
  )
  | inr f ↦
      rw f (insert_name-Above x n names (text_le_total n x f) s.0, insert_name-IsSorted n names s.1)
]

pub sort_names-IsSorted : (names : List Text) → IsSorted (sort_names names)
unfolding sort_names IsSorted
sort_names-IsSorted [] = tt
sort_names-IsSorted (n ∷ names) =
    insert_name-IsSorted n (sort_names names) (sort_names-IsSorted names)

contains-insert_name :
    (m n : Text) (names : List Text)
    → contains (insert_name n names) m ≡ ((m == n) || contains names m)
unfolding insert_name
contains-insert_name m n [] = refl
contains-insert_name m n (x ∷ names) = elim (Bool-cases (text_le n x)) [
  | inl t ↦ rw t refl
  | inr f ↦ rw f (ground (arith, contains-insert_name m n names))
]

pub contains-sort_names :
    (m : Text) (names : List Text) → contains (sort_names names) m ≡ contains names m
unfolding sort_names
contains-sort_names m [] = refl
contains-sort_names m (n ∷ names) =
    contains-insert_name m n (sort_names names)
    ∙ ap (λ b. (m == n) || b) (contains-sort_names m names)

text_le_refl : (a : Text) → text_le a a ≡ true
unfolding text_le
text_le_refl [] = refl
text_le_refl (x ∷ a) = ground (arith, text_le_refl a)

-- The last of the names is above `m`.
abbrev pub Reaches : Text → List Text → Type 0
Reaches m names = (n : Text) × (last names ≡ some n) × (text_le m n ≡ true)

last-longer : (m x : Text) (names : List Text) → Reaches m names → Reaches m (x ∷ names)
last-longer m x names (n, l, h) = (n, rw l refl, h)

Reaches-trans :
    (k m : Text) (names : List Text) → text_le k m ≡ true → Reaches m names → Reaches k names
Reaches-trans k m names e (n, l, h) = (n, l, text_le_trans k m n e h)

pub sorted-Reaches :
    (m : Text) (names : List Text) → IsSorted names → contains names m ≡ true → Reaches m names
unfolding IsSorted
sorted-Reaches m [] s c = absurd (ground arith)
sorted-Reaches m (x ∷ []) s c = let e : m ≡ x = ground arith in (x, refl, rw e (text_le_refl x))
sorted-Reaches m (x ∷ y ∷ names) s c = last-longer m x (y ∷ names) (elim (Bool-cases (m == x)) [
  | inl t ↦
      let e : m ≡ x = ground arith in
      Reaches-trans m y (y ∷ names) (rw e s.0.0) (sorted-Reaches y (y ∷ names) s.1 (ground arith))
  | inr f ↦ sorted-Reaches m (y ∷ names) s.1 (ground arith)
])
