-- ===== src/Python/Number/RoundTrip.antt =====
-- `int` reads back what `str` prints.
use nexguard_sentinel.Prelude.{
  ℕ, zero, suc, ◌+◌, ◌≢◌, ◌*◌, ◌≤◌, ◌<◌, Bool, true, false, some, [], ◌∷◌, ◌≡◌, refl, nat_eq,
  length, arith, ◌/◌, ◌%◌, pos,
}
use nexguard_sentinel.Python.Exec.{ok}
use nexguard_sentinel.Python.Text.{Text, strip, is_space, rstrip}
use nexguard_sentinel.Python.Number.{
  decimal, str, digit, digits, digit_count, int, magnitude, int_signed, skip_prefix, signed,
}

abbrev IsDigits : Text → Type 0
IsDigits [] = Unit
IsDigits (c ∷ s) = (48 ≤ c) × (c ≤ 57) × IsDigits s

digit-decimal : (d : ℕ) → d < 10 → digit (48 + d) ≡ some d
unfolding digit
digit-decimal d h = ground arith

-- One digit is read as the digit that it is.
digits-cons :
    (after : Bool) (n d : ℕ) (tail : Text)
    → d < 10
    → digits 10 after n ((48 + d) ∷ tail) ≡ digits 10 true (n * 10 + d) tail
unfolding digits nat_eq
digits-cons after n d tail h = ground (arith, digit-decimal d h)

digits-decimal :
    (fuel n : ℕ) (after : Bool) (tail : Text)
    → n < fuel
    → digits 10 after 0 (decimal fuel n tail) ≡ digits 10 true n tail
unfolding decimal
digits-decimal zero n after tail h = absurd (omega arith)
digits-decimal (suc fuel) n after tail h = ground (
  arith,
  digits-cons after 0 n tail,
  digits-decimal fuel (n / 10) after ((48 + n % 10) ∷ tail),
  digits-cons true (n / 10) (n % 10) tail,
)

decimal-IsDigits : (fuel n : ℕ) (tail : Text) → IsDigits tail → IsDigits (decimal fuel n tail)
unfolding decimal
decimal-IsDigits zero n tail h = h
decimal-IsDigits (suc fuel) n tail h =
    ground (arith, decimal-IsDigits fuel (n / 10) ((48 + n % 10) ∷ tail))

-- A digit is no space.
digit-ne-space : (c : ℕ) → 48 ≤ c → c ≤ 57 → is_space c ≡ false
unfolding is_space nat_eq
digit-ne-space c lo hi = ground arith

rstrip-digits : (s : Text) → IsDigits s → rstrip s ≡ s
unfolding rstrip
rstrip-digits [] h = refl
rstrip-digits (c ∷ []) h = ground (arith, digit-ne-space c)
rstrip-digits (c ∷ d ∷ s) h = rw (rstrip-digits (d ∷ s) h.2)

strip-digits : (s : Text) → IsDigits s → strip s ≡ s
unfolding strip
strip-digits [] h = refl
strip-digits (c ∷ s) h = ground (arith, digit-ne-space c, rstrip-digits (c ∷ s))

digit_count-digits : (s : Text) → IsDigits s → digit_count s ≡ length s
unfolding nat_eq
digit_count-digits [] h = refl
digit_count-digits (c ∷ s) h = ground (arith, digit_count-digits s)

-- Without a sign and a prefix, a decimal text is its magnitude.
skip_prefix-decimal : (s : Text) → skip_prefix 10 s ≡ s
unfolding skip_prefix
skip_prefix-decimal [] = refl
skip_prefix-decimal (c ∷ []) = refl
skip_prefix-decimal (c ∷ d ∷ s) = refl

magnitude-digits : (s : Text) → IsDigits s → length s ≤ 4300 → magnitude 10 s ≡ digits 10 false 0 s
unfolding magnitude
magnitude-digits s h len = rw (skip_prefix-decimal, digit_count-digits s h) (ground arith)

int_signed-digits :
    (s : Text)
    → IsDigits s
    → length s ≤ 4300
    → s ≢ []
    → int_signed 10 s ≡ signed false (digits 10 false 0 s)
unfolding int_signed
int_signed-digits [] h len nonempty = absurd (nonempty refl)
int_signed-digits (c ∷ s) h len nonempty = rw (← magnitude-digits (c ∷ s) h len) (ground arith)

decimal-ne-nil : (fuel n : ℕ) (tail : Text) → n < fuel → decimal fuel n tail ≢ []
unfolding decimal
decimal-ne-nil zero n tail h = absurd (omega arith)
decimal-ne-nil (suc fuel) n tail h =
    ground (arith, decimal-ne-nil fuel (n / 10) ((48 + n % 10) ∷ tail))

str-eq-ok : (n : ℕ) (t : Text) → str n ≡ ok t → (decimal (suc n) n [] ≡ t) × (length t ≤ 4300)
unfolding str
str-eq-ok n t h = ground arith

-- The text that `str` gives for a number is read back by `int` as that number.
pub int-str : (n : ℕ) (t : Text) → str n ≡ ok t → int 10 t ≡ some (pos n)
unfolding int digits
int-str n t h =
    let (e, len) = str-eq-ok n t h in
    let is_digits : IsDigits t = rw e at (decimal-IsDigits (suc n) n [] tt) in
    let nonempty : t ≢ [] = rw e at (decimal-ne-nil (suc n) n [] (omega arith)) in
    rw (strip-digits t is_digits, int_signed-digits t is_digits len nonempty, ← e)
      (rw (digits-decimal (suc n) n false [] (omega arith)))
