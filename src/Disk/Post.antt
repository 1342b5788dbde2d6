-- ===== src/Disk/Post.antt =====
-- What a method leaves, whether it returns or raises: postconditions with a rule for each way to
-- build a method, and those of the calls.
use nexguard_sentinel.Prelude.{Bool, true, false, List, [], ◌∷◌, ◌≡◌, refl, Bool-cases, inl, inr}
use nexguard_sentinel.Python.Exec.{
  Exception, Result, ok, err, Exec, continue, ◌>>=◌, ◌>>◌, raise, handled, handle, cleaned,
  on_error, refuse_if,
}
use nexguard_sentinel.Disk.{Disk, fault, syscall}

abbrev pub Split : {S A : Type 0} → (A → S → Type 0) → (S → Type 0) → Result A → S → Type 0
Split Q E (ok a) s = Q a s
Split Q E (err e) s = E s

-- From `s` the method returns with `Q`, or raises with `E`.
abbrev pub Post : {S A : Type 0} → Exec S A → S → (A → S → Type 0) → (S → Type 0) → Type 0
Post m s Q E = Split Q E (m s).0 (m s).1

module _ {S A B : Type 0} (Q : A → S → Type 0) (R : B → S → Type 0) (E : S → Type 0) where
  Split-continue :
      (f : A → Exec S B) (r : Result A) (s : S)
      → Split Q E r s
      → ((a : A) (t : S) → Q a t → Post (f a) t R E)
      → Split R E (continue r f s).0 (continue r f s).1
  Split-continue f (ok a) s q h = h a s q
  Split-continue f (err e) s q h = q

  pub Post-bind :
      (m : Exec S A) (f : A → Exec S B) (s : S)
      → Post m s Q E
      → ((a : A) (t : S) → Q a t → Post (f a) t R E)
      → Post (m >>= f) s R E
  Post-bind m f s q h = Split-continue f (m s).0 (m s).1 q h

module _ {S A : Type 0} (Q : A → S → Type 0) (E F : S → Type 0) where
  Split-map : (r : Result A) (s : S) → Split Q E r s → ((t : S) → E t → F t) → Split Q F r s
  Split-map (ok a) s q h = q
  Split-map (err e) s q h = h s q

  -- A weaker promise for the case that the method raises.
  pub Post-weaken : (m : Exec S A) (s : S) → Post m s Q E → ((t : S) → E t → F t) → Post m s Q F
  Post-weaken m s q h = Split-map (m s).0 (m s).1 q h

module _ {S A : Type 0} (Q R : A → S → Type 0) (E : S → Type 0) where
  Split-then :
      (r : Result A) (s : S) → Split Q E r s → ((a : A) (t : S) → Q a t → R a t) → Split R E r s
  Split-then (ok a) s q h = h a s q
  Split-then (err e) s q h = q

  -- A consequence of what holds after a return.
  pub Post-then :
      (m : Exec S A) (s : S) → Post m s Q E → ((a : A) (t : S) → Q a t → R a t) → Post m s R E
  Post-then m s q h = Split-then (m s).0 (m s).1 q h

fault-Post :
    (faults : List Bool) (s : Disk)
    → Split {A = Unit {0}}
        (λ _ t. (t.files ≡ s.files) × (t.dirs ≡ s.dirs))
        (λ t. t.files ≡ s.files)
        (fault faults s).0
        (fault faults s).1
fault-Post [] s = (refl, refl)
fault-Post (true ∷ faults) s = refl
fault-Post (false ∷ faults) s = (refl, refl)

-- A call that may fail before the rest, which is told of the same files.
pub syscall-Post :
    {A : Type 0} (k : Exec Disk A) (s : Disk) (Q : A → Disk → Type 0) (E : Disk → Type 0)
    → ((t : Disk) → t.files ≡ s.files → E t)
    → ((t : Disk) → t.files ≡ s.files → t.dirs ≡ s.dirs → Post k t Q E)
    → Post (syscall >> k) s Q E
unfolding syscall
syscall-Post k s Q E raised rest =
    Post-bind (λ (_ : Unit {0}) t. (t.files ≡ s.files) × (t.dirs ≡ s.dirs)) Q E
      (λ t. fault t.faults t) (λ _. k) s
      (Post-weaken _ (λ t. t.files ≡ s.files) E (λ t. fault t.faults t) s (fault-Post s.faults s)
        raised)
      (λ _ t h. rest t h.0 h.1)

-- A method that may raise, run on after `s`, whose handler cleans up.
module _ {S A : Type 0} (Q : A → S → Type 0) (E F : S → Type 0) where
  Split-handle :
      (r : Result A) (s : S) (p : Exception → Bool) (handler : Exception → Exec S A)
      → Split Q E r s
      → ((t : S) → E t → F t)
      → ((e : Exception) (t : S) → E t → Post (handler e) t Q F)
      → Split Q F (handled r s p handler).0 (handled r s p handler).1
  Split-handle (ok a) s p handler q w h = q
  Split-handle (err e) s p handler q w h = elim (Bool-cases (p e)) [
    | inl t ↦ rw t (h e s q)
    | inr f ↦ rw f (w s q)
  ]

  pub handle-Post :
      (body : Exec S A) (p : Exception → Bool) (handler : Exception → Exec S A) (s : S)
      → Post body s Q E
      → ((t : S) → E t → F t)
      → ((e : Exception) (t : S) → E t → Post (handler e) t Q F)
      → Post (handle body p handler) s Q F
  handle-Post body p handler s q w h = Split-handle (body s).0 (body s).1 p handler q w h

  Split-raise :
      (r : Result (Unit {0})) (e : Exception) (s : S)
      → Split (λ (_ : Unit {0}). F) F r s
      → Split Q F (continue r (λ _. raise {A = A} e) s).0 (continue r (λ _. raise {A = A} e) s).1
  Split-raise (ok _) e s h = h
  Split-raise (err x) e s h = h

  Split-on_error :
      (r : Result A) (s : S) (cleanup : Exec S (Unit {0}))
      → Split Q E r s
      → ((t : S) → E t → Post cleanup t (λ _. F) F)
      → Split Q F (cleaned r s cleanup).0 (cleaned r s cleanup).1
  Split-on_error (ok a) s cleanup q h = q
  Split-on_error (err e) s cleanup q h = Split-raise (cleanup s).0 e (cleanup s).1 (h s q)

  pub on_error-Post :
      (body : Exec S A) (cleanup : Exec S (Unit {0})) (s : S)
      → Post body s Q E
      → ((t : S) → E t → Post cleanup t (λ _. F) F)
      → Post (on_error body cleanup) s Q F
  on_error-Post body cleanup s q h = Split-on_error (body s).0 (body s).1 cleanup q h

-- A test that raises.
pub refuse_if-Post :
    {S A : Type 0} (test : Bool) (e : Exception) (k : Exec S A) (s : S) (Q : A → S → Type 0)
    (E : S → Type 0)
    → E s
    → (test ≡ false → Post k s Q E)
    → Post (refuse_if test e >> k) s Q E
refuse_if-Post true e k s Q E h f = h
refuse_if-Post false e k s Q E h f = f refl
