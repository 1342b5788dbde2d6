-- ===== src/Python/Exec.antt =====
-- A method that mutates an object of type `S` and may raise. What was written before a raise stays
-- written, so the state comes back beside the exception too.
use nexguard_sentinel.Prelude.{String, Bool, true, false, ◌≡◌, ap, if◌then◌else◌}

-- The exceptions that the modelled code raises or lets through.
pub data Exception : Type 0 where
  value_error runtime_error security_block_error os_error : String → Exception
  -- an exception of a library, by the name of its type
  library_error : String → Exception
  overflow_error integrity_error file_not_found_error unicode_error : Exception

pub data Result {ℓ} (A : Type ℓ) : Type ℓ where
  ok : A → Result A
  err : Exception → Result A

abbrev pub Exec {ℓ} : Type ℓ → Type ℓ → Type ℓ
Exec S A = S → Result A × S

module _ {ℓ} {S A : Type ℓ} where
  abbrev pub pure : A → Exec S A
  pure a s = (ok a, s)

  abbrev pub raise : Exception → Exec S A
  raise e s = (err e, s)

  abbrev pub lift : Result A → Exec S A
  lift r s = (r, s)

  abbrev pub gets : (S → A) → Exec S A
  gets f s = (ok (f s), s)

abbrev pub modify {ℓ} : {S : Type ℓ} → (S → S) → S → Result (Unit {ℓ}) × S
modify f s = (ok tt, f s)

module _ {ℓ} {S A B : Type ℓ} where
  abbrev pub continue : Result A → (A → Exec S B) → Exec S B
  continue (ok a) f s = f a s
  continue (err e) f s = (err e, s)

  infixl 10 ◌>>=◌ ◌>>◌
  abbrev pub ◌>>=◌ : Exec S A → (A → Exec S B) → Exec S B
  ◌>>=◌ m f s = continue (m s).0 f (m s).1

  abbrev pub ◌>>◌ : Exec S A → Exec S B → Exec S B
  m >> n = m >>= λ _. n

-- `if test: raise e`
abbrev pub refuse_if {ℓ} : {S : Type ℓ} → Bool → Exception → S → Result (Unit {ℓ}) × S
refuse_if true e s = (err e, s)
refuse_if false e s = (ok tt, s)

-- `except OSError`
abbrev pub is_os_error : Exception → Bool
is_os_error (os_error _) = true
is_os_error file_not_found_error = true
is_os_error _ = false

-- `except (OSError, UnicodeError)`
abbrev pub is_read_error : Exception → Bool
is_read_error unicode_error = true
is_read_error e = is_os_error e

-- `except (OSError, ValueError)`; a UnicodeError is a ValueError
abbrev pub is_value_error : Exception → Bool
is_value_error (value_error _) = true
is_value_error e = is_read_error e

-- `try: body; except p: handler`, from what the body has returned and left
abbrev pub handled {ℓ} :
    {S A : Type ℓ} → Result A → S → (Exception → Bool) → (Exception → Exec S A) → Result A × S
handled (ok a) s p handler = (ok a, s)
handled (err e) s p handler = if p e then handler e s else (err e, s)

abbrev pub handle {ℓ} :
    {S A : Type ℓ} → Exec S A → (Exception → Bool) → (Exception → Exec S A) → Exec S A
handle body p handler s = handled (body s).0 (body s).1 p handler

-- `try: body; except BaseException: cleanup; raise`, from what the body has returned and left
abbrev pub cleaned {ℓ} : {S A : Type ℓ} → Result A → S → Exec S (Unit {ℓ}) → Result A × S
cleaned (ok a) s cleanup = (ok a, s)
cleaned (err e) s cleanup = continue (cleanup s).0 (λ _. raise e) (cleanup s).1

abbrev pub on_error {ℓ} : {S A : Type ℓ} → Exec S A → Exec S (Unit {ℓ}) → Exec S A
on_error body cleanup s = cleaned (body s).0 (body s).1 cleanup

-- The `with` block of a transaction: it commits what the block wrote if the block returns, and
-- rolls back to the state before it if the block raises.
abbrev pub transaction {ℓ} : {S A : Type ℓ} → Exec S A → Exec S A
transaction body s = elim (body s).0 [ ok a ↦ body s | err e ↦ (err e, s) ]

module _ {ℓ} {S A : Type ℓ} where
  pub transaction-ok :
      (body : Exec S A) (s : S) {a : A} {s' : S}
      → body s ≡ (ok a, s')
      → transaction body s ≡ (ok a, s')
  transaction-ok body s h = rw (transaction, h) h

  pub transaction-err :
      (body : Exec S A) (s : S) {e : Exception}
      → (body s).0 ≡ err e
      → transaction body s ≡ (err e, s)
  transaction-err body s h = rw (transaction, h)

  pub transaction-same :
      (body body' : Exec S A) (s : S) → body s ≡ body' s → transaction body s ≡ transaction body' s
  transaction-same body body' s h =
      ap (λ (r : Result A × S). elim r.0 [ ok a ↦ r | err e ↦ (err e, s) ]) h
