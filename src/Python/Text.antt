-- ===== src/Python/Text.antt =====
-- Python's `str` as the list of its code points, for the code that walks it, and the methods of
-- `str` that the program calls.
use Prim.Native.Char.{code}
use nexguard_sentinel.Prelude.{
  ℕ, ◌+◌, String, Bool, false, ◌&&◌, ◌||◌, List, [], ◌∷◌, leb, ◌==◌, nat_eq, if◌then◌else◌,
}

abbrev pub Text : Type 0
Text = List ℕ

abbrev pub codes : String → Text
codes String.[] = []
codes (String.◌∷◌ c s) = code c ∷ codes s

-- The code points for which `str.isspace` holds.
unfoldable pub is_space : ℕ → Bool
unfolding nat_eq
is_space c =
    (leb 9 c && leb c 13)
    || (leb 28 c && leb c 32)
    || c == 133
    || c == 160
    || c == 5760
    || (leb 8192 c && leb c 8202)
    || c == 8232
    || c == 8233
    || c == 8239
    || c == 8287
    || c == 12288

unfoldable pub lstrip : Text → Text
unfolding is_space
lstrip [] = []
lstrip (c ∷ s) = let rest = lstrip s in if is_space c then rest else c ∷ s

-- A code point in front of a text that has been stripped at its end.
abbrev pub rstrip_cons : ℕ → Text → Text
rstrip_cons c [] = if is_space c then [] else c ∷ []
rstrip_cons c (d ∷ s) = c ∷ d ∷ s

unfoldable pub rstrip : Text → Text
unfolding is_space
rstrip [] = []
rstrip (c ∷ s) = rstrip_cons c (rstrip s)

unfoldable pub strip : Text → Text
unfolding lstrip rstrip
strip s = rstrip (lstrip s)

-- `s.startswith("0x")`
abbrev pub starts_with_0x : Text → Bool
starts_with_0x (a ∷ b ∷ s) = a == b'0' && b == b'x'
starts_with_0x _ = false

-- `s.lower()` on the ASCII letters. Other letters are left as they are.
unfoldable pub lower : Text → Text
lower [] = []
lower (c ∷ s) = (if leb b'A' c && leb c b'Z' then c + 32 else c) ∷ lower s
