-- ===== src/Python/Stripped.antt =====
-- `strip` leaves a text without space at its ends.
use nexguard_sentinel.Prelude.{ℕ, false, [], ◌∷◌, ◌≡◌, refl, ap, ◌∙◌, Bool-cases, inl, inr}
use nexguard_sentinel.Python.Text.{Text, is_space, lstrip, rstrip_cons, rstrip, strip}

rstrip-rstrip_cons : (c : ℕ) (s : Text) → rstrip s ≡ s → rstrip (rstrip_cons c s) ≡ rstrip_cons c s
unfolding rstrip
rstrip-rstrip_cons c [] h = elim (Bool-cases (is_space c)) [
  | inl y ↦ rw y refl
  | inr n ↦ rw (n, n) refl
]
rstrip-rstrip_cons c (d ∷ s) h = ap (rstrip_cons c) h

rstrip-rstrip : (s : Text) → rstrip (rstrip s) ≡ rstrip s
unfolding rstrip
rstrip-rstrip [] = refl
rstrip-rstrip (c ∷ s) = rstrip-rstrip_cons c (rstrip s) (rstrip-rstrip s)

-- No space is in front.
abbrev Leads : Text → Type 0
Leads [] = Unit
Leads (c ∷ s) = is_space c ≡ false

lstrip-Leads : (s : Text) → Leads (lstrip s)
unfolding lstrip
lstrip-Leads [] = tt
lstrip-Leads (c ∷ s) = elim (Bool-cases (is_space c)) [
  | inl y ↦ rw y (lstrip-Leads s)
  | inr n ↦ rw n n
]

rstrip_cons-Leads : (c : ℕ) (s : Text) → is_space c ≡ false → Leads (rstrip_cons c s)
rstrip_cons-Leads c [] h = rw h h
rstrip_cons-Leads c (d ∷ s) h = h

rstrip-Leads : (s : Text) → Leads s → Leads (rstrip s)
unfolding rstrip
rstrip-Leads [] h = tt
rstrip-Leads (c ∷ s) h = rstrip_cons-Leads c (rstrip s) h

lstrip-same : (s : Text) → Leads s → lstrip s ≡ s
unfolding lstrip
lstrip-same [] h = refl
lstrip-same (c ∷ s) h = rw h refl

pub strip-strip : (s : Text) → strip (strip s) ≡ strip s
unfolding strip
strip-strip s =
    ap rstrip (lstrip-same (rstrip (lstrip s)) (rstrip-Leads (lstrip s) (lstrip-Leads s)))
    ∙ rstrip-rstrip (lstrip s)
