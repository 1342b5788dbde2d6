-- ===== src/Controller/Settings/Allowed.antt =====
-- The list of the allowed containers, from the environment to the `DockerManager`.
use nexguard_sentinel.Prelude.{
  true, false, List, [], ◌∷◌, ◌==◌, nat_eq, nats_eq, ◌≡◌, refl, ap, ◌∙◌, arith, Bool-cases, inl,
  inr, ◌↔◌, contains,
}
use nexguard_sentinel.Python.Exec.{Result, ok}
use nexguard_sentinel.Python.Outcome.{Yields, after_any, yield}
use nexguard_sentinel.Python.Environ.{Environment}
use nexguard_sentinel.Python.Text.{Text, strip}
use nexguard_sentinel.Python.Stripped.{strip-strip}
use nexguard_sentinel.Controller.Docker.{clean_names}
use nexguard_sentinel.Controller.Settings.{
  Settings, from_env, allowed_names, listed_names, env_float, env_int,
}

clean_names-clean_names : (names : List Text) → clean_names (clean_names names) ≡ clean_names names
unfolding clean_names
clean_names-clean_names [] = refl
clean_names-clean_names (name ∷ names) = elim (Bool-cases (strip name == [])) [
  | inl y ↦ rw y (clean_names-clean_names names)
  | inr n ↦
      rw n
        (rw (strip-strip name, n) (ap (λ rest. strip name ∷ rest) (clean_names-clean_names names)))
]

-- A name that the comprehension keeps is a name that was given, without the space at its ends.
abbrev pub Given : List Text → Text → Type 0
Given names name =
    (given : Text) × (contains names given ≡ true) × (strip given ≡ name) × ((name == []) ≡ false)

later-Given :
    (n : Text) (names : List Text) (name : Text) → Given names name → Given (n ∷ names) name
later-Given n names name (given, there, same, full) = (given, ground arith, same, full)

pub clean_names-Given :
    (names : List Text) (name : Text) → contains (clean_names names) name ≡ true → Given names name
unfolding clean_names
clean_names-Given [] name h = absurd (ground arith)
clean_names-Given (n ∷ names) name h = elim (Bool-cases (strip n == [])) [
  | inl y ↦ later-Given n names name (clean_names-Given names name (rw y at h))
  | inr k ↦ elim (Bool-cases (strip n == name)) [
    | inl same ↦ let e : strip n ≡ name = ground arith in (n, ground arith, e, rw (← e) k)
    | inr other ↦ later-Given n names name (clean_names-Given names name (ground arith))
  ]
]

pub Given-clean_names :
    (names : List Text) (name : Text) → Given names name → contains (clean_names names) name ≡ true
unfolding clean_names
Given-clean_names [] name (given, there, same, full) = absurd (ground arith)
Given-clean_names (n ∷ names) name (given, there, same, full) = elim (Bool-cases (n == given)) [
  | inl y ↦
      let e : strip n ≡ name = let f : n ≡ given = ground arith in ap strip f ∙ same in
      rw (e, full) (ground arith)
  | inr k ↦
      let rest = Given-clean_names names name (given, ground arith, same, full) in ground arith
]

from_env-allowed :
    {Float : Type 0} (float : Text → Result Float) (env : Environment)
    → Yields (from_env float env) (λ S. S.allowed_containers ≡ clean_names (listed_names env))
unfolding from_env allowed_names
from_env-allowed float env =
    after_any (env_float float env "HEALTH_CHECK_INTERVAL_SECONDS" "10") (λ _.
      after_any (env_int env "FAILURE_THRESHOLD" "3") (λ _.
        after_any (env_float float env "BACKUP_INTERVAL_SECONDS" "60") (λ _.
          after_any (env_int env "BACKUP_RETENTION_COUNT" "10") (λ _.
            after_any (env_float float env "RECOVERY_COOLDOWN_SECONDS" "60") (λ _.
              after_any (env_int env "MAX_RECOVERIES_PER_WINDOW" "3") (λ _.
                after_any (env_float float env "RECOVERY_WINDOW_SECONDS" "600") (λ _.
                  after_any (env_float float env "RESTART_WAIT_SECONDS" "30")
                    (λ _. yield refl))))))))

-- Of settings that are read from the environment, the `DockerManager` allows a container exactly if
-- its name is not empty and is, without the space at its ends, one of the names between the commas
-- of the variable: cleaning the names a second time loses none of them.
pub from_env-Given :
    {Float : Type 0} (float : Text → Result Float) (env : Environment) (S : Settings Float)
    → from_env float env ≡ ok S
    → (name : Text)
    → (contains (clean_names S.allowed_containers) name ≡ true) ↔ Given (listed_names env) name
from_env-Given float env S h name =
    let e : S.allowed_containers ≡ clean_names (listed_names env) =
      (from_env-allowed float env).yields S h in
    (
      λ k.
          clean_names-Given (listed_names env) name
            (ground (arith, clean_names-clean_names (listed_names env))),
      λ g.
          let t = Given-clean_names (listed_names env) name g in
          ground (arith, clean_names-clean_names (listed_names env)),
    )
