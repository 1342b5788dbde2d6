-- ===== src/Python/Number.antt =====
-- Python's `str(n)` of an integer that is not negative, and `int(s, base)` of a text.
pub mod RoundTrip
pub mod Hex
use nexguard_sentinel.Prelude.{
  ℕ, zero, suc, ◌+◌, ◌-◌, ◌*◌, ◌/◌, ◌%◌, Bool, true, false, ◌&&◌, ◌||◌, Option, none, some, List,
  [], ◌∷◌, ltb, leb, ◌==◌, nat_eq, if◌then◌else◌, length, ℤ, pos, negsuc,
}
use nexguard_sentinel.Python.Exec.{Result, ok, err, value_error}
use nexguard_sentinel.Python.Text.{Text, strip}

-- The decimal digits of `n`, in front of `tail`. With `n < fuel` the fuel is enough.
unfoldable pub decimal : ℕ → ℕ → Text → Text
decimal zero n tail = tail
decimal (suc fuel) n tail =
    let rest = decimal fuel (n / 10) ((48 + n % 10) ∷ tail) in
    if ltb n 10 then (48 + n) ∷ tail else rest

-- `sys.int_info.default_max_str_digits`: longer decimal conversions raise `ValueError`.
abbrev pub max_str_digits : ℕ
max_str_digits = 4300

abbrev too_long : Text → Bool
too_long digits = ltb max_str_digits (length digits)

-- str(n)
unfoldable pub str : ℕ → Result Text
str n =
    let digits = decimal (suc n) n [] in
    if too_long digits
    then err (value_error "Exceeds the limit for integer string conversion")
    else ok digits

-- The code points of value zero among the decimal digits of Unicode 15.0, the version of Python
-- 3.12. The nine code points behind each have the values from one to nine.
abbrev pub decimal_zeros : List ℕ
decimal_zeros =
    48 ∷ 0x660 ∷ 0x6f0 ∷ 0x7c0 ∷ 0x966 ∷ 0x9e6 ∷ 0xa66 ∷ 0xae6 ∷ 0xb66 ∷ 0xbe6 ∷ 0xc66 ∷ 0xce6
    ∷ 0xd66 ∷ 0xde6 ∷ 0xe50 ∷ 0xed0 ∷ 0xf20 ∷ 0x1040 ∷ 0x1090 ∷ 0x17e0 ∷ 0x1810 ∷ 0x1946 ∷ 0x19d0
    ∷ 0x1a80 ∷ 0x1a90 ∷ 0x1b50 ∷ 0x1bb0 ∷ 0x1c40 ∷ 0x1c50 ∷ 0xa620 ∷ 0xa8d0 ∷ 0xa900 ∷ 0xa9d0
    ∷ 0xa9f0 ∷ 0xaa50 ∷ 0xabf0 ∷ 0xff10 ∷ 0x104a0 ∷ 0x10d30 ∷ 0x11066 ∷ 0x110f0 ∷ 0x11136 ∷ 0x111d0
    ∷ 0x112f0 ∷ 0x11450 ∷ 0x114d0 ∷ 0x11650 ∷ 0x116c0 ∷ 0x11730 ∷ 0x118e0 ∷ 0x11950 ∷ 0x11c50
    ∷ 0x11d50 ∷ 0x11da0 ∷ 0x11f50 ∷ 0x16a60 ∷ 0x16ac0 ∷ 0x16b50 ∷ 0x1d7ce ∷ 0x1d7d8 ∷ 0x1d7e2
    ∷ 0x1d7ec ∷ 0x1d7f6 ∷ 0x1e140 ∷ 0x1e2f0 ∷ 0x1e4f0 ∷ 0x1e950 ∷ 0x1fbf0 ∷ []

in_block : List ℕ → ℕ → Option ℕ
in_block [] c = none
in_block (z ∷ zeros) c = if leb z c && ltb c (z + 10) then some (c - z) else in_block zeros c

-- The value of a code point as a digit.
unfoldable pub digit : ℕ → Option ℕ
unfolding in_block
digit c =
    if leb b'a' c && leb c b'z'
    then some (c - b'a' + 10)
    else if leb b'A' c && leb c b'Z'
    then some (c - b'A' + 10)
    else in_block decimal_zeros c

-- The loop over the digits. `after_digit` tells that an underscore or the end may come next.
unfoldable pub digits : ℕ → Bool → ℕ → Text → Option ℕ
digits base after_digit n [] = if after_digit then some n else none
digits base after_digit n (c ∷ s) =
    let on : Option ℕ = elim (digit c) [
      | none ↦ none
      | some d ↦ if ltb d base then digits base true (n * base + d) s else none
    ] in
    let skip = digits base false n s in if c == 95 then if after_digit then skip else none else on

-- How many digits the limit counts: underscores are not among them.
abbrev pub digit_count : Text → ℕ
digit_count [] = 0
digit_count (c ∷ s) = (if c == 95 then 0 else 1) + digit_count s

-- One underscore may follow the prefix of a base.
abbrev pub skip_underscore : Text → Text
skip_underscore (c ∷ s) = if c == 95 then s else c ∷ s
skip_underscore [] = []

abbrev pub is_zero : Option ℕ → Bool
is_zero (some zero) = true
is_zero _ = false

-- Base 16 allows a prefix `0x` or `0X`. Its zero may be any zero digit.
unfoldable pub skip_prefix : ℕ → Text → Text
unfolding digit nat_eq
skip_prefix base (z ∷ x ∷ s) =
    if base == 16 && is_zero (digit z) && (x == b'x' || x == b'X')
    then skip_underscore s
    else z ∷ x ∷ s
skip_prefix base s = s

abbrev pub negate : ℕ → ℤ
negate zero = pos zero
negate (suc n) = negsuc n

abbrev pub signed : Bool → Option ℕ → Option ℤ
signed negative none = none
signed false (some n) = some (pos n)
signed true (some n) = some (negate n)

unfoldable pub magnitude : ℕ → Text → Option ℕ
magnitude base s =
    if base == 10 && ltb max_str_digits (digit_count s)
    then none
    else digits base false 0 (skip_prefix base s)

-- int(s, base) for the bases 10 and 16; `none` is a `ValueError`
unfoldable pub int_signed : ℕ → Text → Option ℤ
int_signed base [] = none
int_signed base (c ∷ s) =
    if c == b'+'
    then signed false (magnitude base s)
    else if c == b'-'
    then signed true (magnitude base s)
    else signed false (magnitude base (c ∷ s))

unfoldable pub int : ℕ → Text → Option ℤ
int base s = int_signed base (strip s)
