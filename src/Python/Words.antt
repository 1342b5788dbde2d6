-- ===== src/Python/Words.antt =====
-- `str.split` at one character, and `str.join`.
use nexguard_sentinel.Prelude.{ℕ, List, [], ◌∷◌, ◌++◌, ◌==◌, nat_eq, if◌then◌else◌}
use nexguard_sentinel.Python.Text.{Text}

-- A character in front of the first part.
abbrev pub onto_first : ℕ → List Text → List Text
onto_first c [] = (c ∷ []) ∷ []
onto_first c (part ∷ parts) = (c ∷ part) ∷ parts

-- `s.split(sep)`, for a separator of one character
unfoldable pub split : ℕ → Text → List Text
split sep [] = [] ∷ []
split sep (c ∷ s) = let parts = split sep s in if c == sep then [] ∷ parts else onto_first c parts

-- `sep.join(parts)`, for a separator of one character
unfoldable pub join : ℕ → List Text → Text
join sep [] = []
join sep (part ∷ []) = part
join sep (part ∷ more ∷ parts) = part ++ sep ∷ join sep (more ∷ parts)
