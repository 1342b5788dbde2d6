-- ===== src/Controller/Recovery/Windows.antt =====
-- Counting the attempts of a window.
use nexguard_sentinel.Prelude.{
  ℕ, ◌+◌, ◌≤◌, ◌<◌, ◌&&◌, List, [], ◌∷◌, ◌++◌, ltb, leb, length, if◌then◌else◌, ◌≡◌, arith,
}
use nexguard_sentinel.Controller.Recovery.{expire}

-- How many of the times lie in the `window` that starts at `t`.
unfoldable pub count_within : ℕ → ℕ → List ℕ → ℕ
count_within window t [] = 0
count_within window t (a ∷ times) =
    (if leb t a && ltb a (t + window) then 1 else 0) + count_within window t times

-- How many of the times are less than `window` before `now`.
unfoldable pub count_recent : ℕ → ℕ → List ℕ → ℕ
count_recent window now [] = 0
count_recent window now (a ∷ times) =
    (if ltb now (a + window) then 1 else 0) + count_recent window now times

pub count_recent-append :
    (window now a : ℕ) (times : List ℕ)
    → count_recent window now (times ++ a ∷ [])
      ≡ count_recent window now times + (if ltb now (a + window) then 1 else 0)
unfolding count_recent
count_recent-append window now a [] = ground arith
count_recent-append window now a (b ∷ times) =
    ground (arith, count_recent-append window now a times)

pub count_recent-length :
    (window now : ℕ) (times : List ℕ) → count_recent window now times ≤ length times
unfolding count_recent
count_recent-length window now [] = ground arith
count_recent-length window now (a ∷ times) = ground (arith, count_recent-length window now times)

-- An attempt that left the window is not recent, now or later.
pub count_recent-expire :
    (window before now : ℕ) (times : List ℕ)
    → before ≤ now
    → count_recent window now times ≤ count_recent window now (expire window before times)
unfolding count_recent expire
count_recent-expire window before now [] h = ground arith
count_recent-expire window before now (a ∷ times) h =
    ground (arith, count_recent-expire window before now times h)

-- Times in a window that reaches past `now` are recent.
pub count_within-recent :
    (window t now : ℕ) (times : List ℕ)
    → now < t + window
    → count_within window t times ≤ count_recent window now times
unfolding count_recent count_within
count_within-recent window t now [] h = ground arith
count_within-recent window t now (a ∷ times) h =
    ground (arith, count_within-recent window t now times h)
