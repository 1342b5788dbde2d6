-- ===== src/Sentinel/Fields.antt =====
-- Which texts the fields of the settings take.
use nexguard_sentinel.Prelude.{
  String, Bool, true, false, not, ◌||◌, Option, none, some, [], length, ◌==◌, nat_eq, nats_eq, ◌≡◌,
  ◌≢◌, refl, sym, ap, ◌∙◌, arith, ℤ, pos, negsuc, Bool-cases, inl, inr,
}
use nexguard_sentinel.Python.Exec.{Result, ok}
use nexguard_sentinel.Python.Outcome.{◌>>◌, bind-ok}
use nexguard_sentinel.Python.Text.{Text, codes, strip, lower, starts_with_0x}
use nexguard_sentinel.Python.Number.{int}
use nexguard_sentinel.Sentinel.{
  Environment, Url, get, refuse, is_true, eq_int, address_number, drop_two, required, address,
  endpoint,
}

-- A chain that begins with a test returns if the test fails and the rest returns.
pub refuse-rest :
    {A : Type 0} (b : Bool) (m : String) (rest : Result A) (a : A)
    → refuse b m >> rest ≡ ok a
    → (b ≡ false) × (rest ≡ ok a)
refuse-rest true m rest a h = cc
refuse-rest false m rest a h = (refl, h)

pub refused :
    {A : Type 0} (b : Bool) (m : String) (rest : Result A) (a : A)
    → b ≡ false
    → rest ≡ ok a
    → refuse b m >> rest ≡ ok a
refused b m rest a x h = rw x h

-- The value of a variable that is required.
abbrev pub given : Environment → String → Text
given env name = strip (get env name [])

-- A variable that is required, and its value.
pub record IsGiven (env : Environment) (name : String) (value : Text) : Type 0 where
  pub stripped : value ≡ given env name
  pub nonempty : value ≢ []

pub required-IsGiven :
    (env : Environment) (name : String) (value : Text)
    → required env name ≡ ok value
    → IsGiven env name value
unfolding required
required-IsGiven env name value h =
    let (a, b) = refuse-rest (given env name == []) "… is required" (ok (given env name)) value h in
    record { stripped = ground arith; nonempty = λ x. ground arith }

pub IsGiven-required :
    (env : Environment) (name : String) (value : Text)
    → IsGiven env name value
    → required env name ≡ ok value
unfolding required
IsGiven-required env name value g =
    let a = g.stripped in
    let b = g.nonempty in
    refused (given env name == []) "… is required" (ok (given env name)) value (ground arith)
      (ap ok (sym a))

-- A text that `address` returns for a variable.
pub record IsAddress (env : Environment) (name : String) (value : Text) : Type 0 where
  pub raw : Text
  pub raw_given : IsGiven env name raw
  pub lowered : value ≡ lower raw
  pub has_length : length value ≡ 42
  pub has_prefix : starts_with_0x value ≡ true
  pub number : ℤ
  pub in_base_16 : int 16 (drop_two value) ≡ some number
  pub nonzero : number ≢ pos 0

address_number-some : (o : Option ℤ) (n : ℤ) → address_number o ≡ ok n → o ≡ some n
address_number-some none n h = cc
address_number-some (some m) n h = ap some (ground arith)

pub eq_int-eq : (m n : ℤ) → eq_int m n ≡ true → m ≡ n
eq_int-eq (pos m) (pos n) h = ap pos (ground arith)
eq_int-eq (negsuc m) (negsuc n) h = ap negsuc (ground arith)
eq_int-eq (pos m) (negsuc n) h = cc
eq_int-eq (negsuc m) (pos n) h = cc

eq_int-ne : (m n : ℤ) → eq_int m n ≡ false → m ≢ n
eq_int-ne m n h z = apart n (rw z refl ∙ h)
  where
    apart : (n : ℤ) → eq_int n n ≡ false → ⊥
    apart (pos n) h = ground arith
    apart (negsuc n) h = ground arith

pub eq_int_refl : (n : ℤ) → eq_int n n ≡ true
eq_int_refl (pos n) = ground arith
eq_int_refl (negsuc n) = ground arith

ne-eq_int : (m n : ℤ) → m ≢ n → eq_int m n ≡ false
ne-eq_int m n h = elim (Bool-cases (eq_int m n)) [
  | inl t ↦ absurd (h (eq_int-eq m n t))
  | inr f ↦ f
]

-- The test of `address`.
abbrev has_shape : Text → Bool
has_shape value = not (length value == 42) || not (starts_with_0x value)

has_shape-parts :
    (value : Text) → has_shape value ≡ false → (length value ≡ 42) × (starts_with_0x value ≡ true)
has_shape-parts value h = (ground arith, ground arith)

parts-has_shape :
    (value : Text) → length value ≡ 42 → starts_with_0x value ≡ true → has_shape value ≡ false
unfolding nat_eq
parts-has_shape value h k = rw (h, k) refl

pub address-IsAddress :
    (env : Environment) (name : String) (value : Text)
    → address env name ≡ ok value
    → IsAddress env name value
unfolding address
address-IsAddress env name value h =
    let (raw, a, b) = bind-ok {r = required env name} h in
    let (c, d) = refuse-rest (has_shape (lower raw)) _ _ value b in
    let (n, e, f) = bind-ok {r = address_number (int 16 (drop_two (lower raw)))} d in
    let (g, i) = refuse-rest (eq_int n (pos 0)) _ (ok (lower raw)) value f in
    let lowered : lower raw ≡ value = ground arith in
    let shape = has_shape-parts (lower raw) c in
    record {
      raw = raw;
      raw_given = required-IsGiven env name raw a;
      lowered = sym lowered;
      has_length = rw (← lowered) shape.0;
      has_prefix = rw (← lowered) shape.1;
      number = n;
      in_base_16 = rw (← lowered) (address_number-some _ n e);
      nonzero = eq_int-ne n (pos 0) g;
    }

pub IsAddress-address :
    (env : Environment) (name : String) (value : Text)
    → IsAddress env name value
    → address env name ≡ ok value
unfolding address
IsAddress-address env name value g =
    rw (IsGiven-required env name g.raw g.raw_given, ← g.lowered)
      (refused (has_shape value) _ _ value (parts-has_shape value g.has_length g.has_prefix) (
        rw g.in_base_16 (
          refused (eq_int g.number (pos 0)) _ (ok value) value
            (ne-eq_int g.number (pos 0) g.nonzero) refl)))

module _ (urlsplit : Text → Result Url) where
  -- A text that `endpoint` returns for a variable.
  pub record IsEndpoint (env : Environment) (name : String) (value : Text) : Type 0 where
    pub value_given : IsGiven env name value
    pub url : Url
    pub splits : urlsplit value ≡ ok url
    pub is_https : url.scheme ≡ codes "https"
    pub has_host : is_true url.hostname ≡ true
    pub no_user : is_true url.username ≡ false

  -- The test of `endpoint`.
  abbrev is_refused : Url → Bool
  is_refused url =
      not (url.scheme == codes "https") || not (is_true url.hostname) || is_true url.username

  is_refused-parts :
      (url : Url)
      → is_refused url ≡ false
      → (url.scheme ≡ codes "https")
        × (is_true url.hostname ≡ true)
        × (is_true url.username ≡ false)
  is_refused-parts url h = (ground arith, ground arith, ground arith)

  pub endpoint-IsEndpoint :
      (env : Environment) (name : String) (value : Text)
      → endpoint urlsplit env name ≡ ok value
      → IsEndpoint env name value
  unfolding endpoint
  endpoint-IsEndpoint env name value h =
      let (given, a, b) = bind-ok {r = required env name} h in
      let (url, c, d) = bind-ok {r = urlsplit given} b in
      let (e, f) = refuse-rest (is_refused url) _ (ok given) value d in
      let same : given ≡ value = ground arith in
      let parts = is_refused-parts url e in
      record {
        value_given = rw (← same) (required-IsGiven env name given a);
        url = url;
        splits = rw (← same) c;
        is_https = parts.0;
        has_host = parts.1;
        no_user = parts.2;
      }

  pub IsEndpoint-endpoint :
      (env : Environment) (name : String) (value : Text)
      → IsEndpoint env name value
      → endpoint urlsplit env name ≡ ok value
  unfolding endpoint
  IsEndpoint-endpoint env name value g =
      let a = g.is_https in
      let b = g.has_host in
      let c = g.no_user in
      rw (IsGiven-required env name value g.value_given, g.splits)
        (refused (is_refused g.url) _ (ok value) value (ground arith) refl)
