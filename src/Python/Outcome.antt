-- ===== src/Python/Outcome.antt =====
-- Code that computes a value or raises, and changes nothing: `do` blocks on `Result`.
use nexguard_sentinel.Prelude.{◌≡◌, refl, arith}
use nexguard_sentinel.Python.Exec.{Result, ok, err}

module _ {ℓ κ} {A : Type ℓ} {B : Type κ} where
  infixl 10 ◌>>=◌
  abbrev pub ◌>>=◌ : Result A → (A → Result B) → Result B
  ok a >>= f = f a
  err e >>= f = err e

  -- A chain that returns has its first part returned.
  pub bind-ok :
      {r : Result A} {f : A → Result B} {b : B}
      → r >>= f ≡ ok b
      → (a : A) × (r ≡ ok a) × (f a ≡ ok b)
  bind-ok {r = r} {f = f} {b = b} h = go r f b h
    where
      go :
          (r : Result A) (f : A → Result B) (b : B)
          → r >>= f ≡ ok b
          → (a : A) × (r ≡ ok a) × (f a ≡ ok b)
      go (ok a) f b h = (a, refl, h)
      go (err e) f b h = cc

infixl 10 ◌>>◌
abbrev pub ◌>>◌ {ℓ κ} : {A : Type ℓ} {B : Type κ} → Result A → Result B → Result B
r >> k = r >>= λ _. k

-- If `r` is a value, then `Q` holds of it. A record, so that a proof follows a `do` block with no
-- term written.
pub record Yields {A : Type 0} (r : Result A) (Q : A → Type 0) : Type 0 where
  pub yields : (a : A) → r ≡ ok a → Q a

-- A part of which nothing is said.
pub after_any :
    {A B : Type 0} (r : Result A) {f : A → Result B} {Q : B → Type 0}
    → ((a : A) → Yields (f a) Q)
    → Yields (r >>= f) Q
after_any {A} {B} r {f = f} {Q = Q} h = record { yields = go r }
  where
    go : (r : Result A) (b : B) → r >>= f ≡ ok b → Q b
    go (ok a) b e = (h a).yields b e
    go (err x) b e = cc

pub yield : {A : Type 0} {a : A} {Q : A → Type 0} → Q a → Yields (ok a) Q
yield {a = a} q = record { yields = λ b h. let e : a ≡ b = ground arith in rw (← e) q }
