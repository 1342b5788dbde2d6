-- ===== src/Python/Gives.antt =====
-- What a method's result tells, whatever the state that it started from, with a rule for each way to
-- build a method. `Gives` is a record, so that a proof follows the `do` block with no term written.
use nexguard_sentinel.Prelude.{Bool, true, false, ◌≡◌, refl, arith}
use nexguard_sentinel.Python.Exec.{
  Exception, Result, ok, err, Exec, continue, pure, lift, refuse_if, ◌>>=◌,
}

-- If `m` returns `a`, then `Q a`.
pub record Gives {S A : Type 0} (m : Exec S A) (Q : A → Type 0) : Type 0 where
  pub gives : (s : S) (a : A) → (m s).0 ≡ ok a → Q a

continue-ok :
    {S A B : Type 0} (r : Result A) (f : A → Exec S B) (s : S) (b : B)
    → (continue r f s).0 ≡ ok b
    → (a : A) × (r ≡ ok a) × ((f a s).0 ≡ ok b)
continue-ok (ok a) f s b h = (a, refl, h)
continue-ok (err e) f s b h = cc

pub bind :
    {S A B : Type 0} {m : Exec S A} {f : A → Exec S B} {P : A → Type 0} {Q : B → Type 0}
    → Gives m P
    → ((a : A) → P a → Gives (f a) Q)
    → Gives (m >>= f) Q
bind {m = m} {f = f} g h = record {
  gives = λ s b e.
      let (a, x, y) = continue-ok (m s).0 f (m s).1 b e in (h a (g.gives s a x)).gives (m s).1 b y;
}

pub lifts : {S A : Type 0} (r : Result A) → Gives (lift {S = S} r) (λ a. r ≡ ok a)
lifts r = record { gives = λ s a h. h }

pub pures : {S A : Type 0} {a : A} {Q : A → Type 0} → Q a → Gives (pure {S = S} a) Q
pures {a = a} q = record { gives = λ s b h. let e : a ≡ b = ground arith in rw (← e) q }

pub refuses :
    {S : Type 0} (test : Bool) (e : Exception)
    → Gives (refuse_if {S = S} test e) (λ _. test ≡ false)
refuses true e = record { gives = λ s a h. cc }
refuses false e = record { gives = λ s a h. refl }

pub anything : {S A : Type 0} (m : Exec S A) → Gives m (λ _. Unit {0})
anything m = record { gives = λ s a h. tt }

-- Whatever `m` returns or raises, it keeps `I`.
pub record Keeps {S A : Type 0} (I : S → Type 0) (m : Exec S A) : Type 0 where
  pub keeps : (s : S) → I s → I (m s).1

continue-keeps :
    {S A B : Type 0} (I : S → Type 0) (r : Result A) (f : A → Exec S B) (s : S)
    → I s
    → ((a : A) → Keeps I (f a))
    → I (continue r f s).1
continue-keeps I (ok a) f s i h = (h a).keeps s i
continue-keeps I (err e) f s i h = i

pub bind-Keeps :
    {S A B : Type 0} {I : S → Type 0} {m : Exec S A} {f : A → Exec S B}
    → Keeps I m
    → ((a : A) → Keeps I (f a))
    → Keeps I (m >>= f)
bind-Keeps {I = I} {m = m} {f = f} k h = record {
  keeps = λ s i. continue-keeps I (m s).0 f (m s).1 (k.keeps s i) h;
}

pub lift-Keeps : {S A : Type 0} {I : S → Type 0} (r : Result A) → Keeps I (lift {S = S} r)
lift-Keeps r = record { keeps = λ s i. i }

pub pure-Keeps : {S A : Type 0} {I : S → Type 0} {a : A} → Keeps I (pure {S = S} a)
pure-Keeps = record { keeps = λ s i. i }

pub refuse_if-Keeps :
    {S : Type 0} {I : S → Type 0} (test : Bool) (e : Exception) → Keeps I (refuse_if test e)
refuse_if-Keeps true e = record { keeps = λ s i. i }
refuse_if-Keeps false e = record { keeps = λ s i. i }

-- From a state with `I`: if `m` returns `a`, then `Q a`.
pub record Begins {S A : Type 0} (I : S → Type 0) (m : Exec S A) (Q : A → Type 0) : Type 0 where
  pub begins : (s : S) → I s → (a : A) → (m s).0 ≡ ok a → Q a

-- The same of a method that keeps `I`, whatever it returns or raises.
pub record Holds {S A : Type 0} (I : S → Type 0) (m : Exec S A) (Q : A → Type 0) : Type 0 where
  pub gives : (s : S) → I s → (a : A) → (m s).0 ≡ ok a → Q a
  pub keeps : (s : S) → I s → I (m s).1

pub kept-Holds :
    {S A : Type 0} {I : S → Type 0} {m : Exec S A} {Q : A → Type 0}
    → Gives m Q
    → Keeps I m
    → Holds I m Q
kept-Holds g k = record { gives = λ s i a h. g.gives s a h; keeps = λ s i. k.keeps s i }

pub map-Holds :
    {S A : Type 0} {I : S → Type 0} {m : Exec S A} {P Q : A → Type 0}
    → Holds I m P
    → ((a : A) → P a → Q a)
    → Holds I m Q
map-Holds g f = record { gives = λ s i a h. f a (g.gives s i a h); keeps = λ s i. g.keeps s i }

continue-Holds :
    {S A B : Type 0} (I : S → Type 0) (r : Result A) (f : A → Exec S B) (s : S)
    → I s
    → ((a : A) → r ≡ ok a → I (f a s).1)
    → I (continue r f s).1
continue-Holds I (ok a) f s i h = h a refl
continue-Holds I (err e) f s i h = i

pub bind-Holds :
    {S A B : Type 0} {I : S → Type 0} {m : Exec S A} {f : A → Exec S B} {P : A → Type 0}
    {Q : B → Type 0}
    → Holds I m P
    → ((a : A) → P a → Holds I (f a) Q)
    → Holds I (m >>= f) Q
bind-Holds {I = I} {m = m} {f = f} g h = record {
  gives = λ s i b e.
      let (a, x, y) = continue-ok (m s).0 f (m s).1 b e in
      (h a (g.gives s i a x)).gives (m s).1 (g.keeps s i) b y;
  keeps = λ s i.
      continue-Holds I (m s).0 f (m s).1 (g.keeps s i)
        (λ a x. (h a (g.gives s i a x)).keeps (m s).1 (g.keeps s i));
}

pub lift-Holds :
    {S A : Type 0} {I : S → Type 0} (r : Result A) → Holds I (lift {S = S} r) (λ a. r ≡ ok a)
lift-Holds r = kept-Holds (lifts r) (lift-Keeps r)

pub refuse_if-Holds :
    {S : Type 0} {I : S → Type 0} (test : Bool) (e : Exception)
    → Holds I (refuse_if test e) (λ _. test ≡ false)
refuse_if-Holds test e = kept-Holds (refuses test e) (refuse_if-Keeps test e)

pub pure-Holds :
    {S A : Type 0} {I : S → Type 0} {a : A} {Q : A → Type 0} → Q a → Holds I (pure {S = S} a) Q
pure-Holds q = kept-Holds (pures q) pure-Keeps

pub any-Holds :
    {S A : Type 0} {I : S → Type 0} {m : Exec S A} → Keeps I m → Holds I m (λ _. Unit {0})
any-Holds {m = m} k = kept-Holds (anything m) k

pub bind-Begins :
    {S A B : Type 0} {I : S → Type 0} {m : Exec S A} {f : A → Exec S B} {P : A → Type 0}
    {Q : B → Type 0}
    → Holds I m P
    → ((a : A) → P a → Begins I (f a) Q)
    → Begins I (m >>= f) Q
bind-Begins {m = m} {f = f} g h = record {
  begins = λ s i b e.
      let (a, x, y) = continue-ok (m s).0 f (m s).1 b e in
      (h a (g.gives s i a x)).begins (m s).1 (g.keeps s i) b y;
}

pub rest-Begins :
    {S A : Type 0} {I : S → Type 0} {m : Exec S A} {Q : A → Type 0} → Gives m Q → Begins I m Q
rest-Begins g = record { begins = λ s i a h. g.gives s a h }
