-- ===== src/Controller/Docker/Guards.antt =====
-- The two guards of a restart.
use nexguard_sentinel.Prelude.{
  true, false, some, List, ◌∷◌, nats_eq, string_eq, contains, ◌≡◌, refl, ap, ◌∙◌, arith, Bool-cases,
  inl, inr, ◌≢◌,
}
use nexguard_sentinel.Python.Exec.{Exception, Result, ok, err, security_block_error, continue}
use nexguard_sentinel.Python.Text.{Text}
use nexguard_sentinel.Controller.Docker.{
  Client, Station, clean_names, block_event, security_block, restart_managed, restart_container,
  is_managed,
}
use nexguard_sentinel.Controller.Settings.Allowed.{Given, clean_names-Given, Given-clean_names}

module _ (C : Client) (allowed : List Text) (name : Text) (s : Station C) where
  abbrev found : Result C.Container
  found = (C.get name s.world).0

  -- The state once the client has been asked for the container.
  abbrev looked_up : Station C
  looked_up = record s { world = (C.get name s.world).1 }

  -- A name that is not on the list is refused without a call of the client, and the refusal is
  -- logged.
  pub restart_container-not_listed :
      contains (clean_names allowed) name ≡ false
      → restart_container C allowed name s ≡ (
        err (security_block_error "container_not_in_allowlist"),
        record s { log = (name, block_event C "container_not_in_allowlist") ∷ s.log },
      )
  unfolding restart_container security_block
  restart_container-not_listed h = rw h

  restart_container-listed :
      contains (clean_names allowed) name ≡ true
      → restart_container C allowed name s ≡ continue found (restart_managed C name) looked_up
  unfolding restart_container
  restart_container-listed h = rw h

  label-of_is_managed :
      (c : C.Container) → is_managed C c ≡ true → C.label c "io.nexguard.managed" ≡ some "true"
  label-of_is_managed c h = ground arith

  restart_managed-done :
      (c : C.Container)
      → is_managed C c ≡ true
      → restart_managed C name c looked_up ≡ (
        (C.restart c 10 looked_up.world).0,
        record s { world = (C.restart c 10 looked_up.world).1 },
      )
  unfolding restart_managed
  restart_managed-done c h = rw h

  -- A container without the managed label is refused without a restart, and the refusal is logged:
  -- the world is what the lookup of the container leaves.
  pub restart_container-unmanaged :
      (c : C.Container)
      → contains (clean_names allowed) name ≡ true
      → found ≡ ok c
      → is_managed C c ≡ false
      → restart_container C allowed name s ≡ (
        err (security_block_error "managed_label_missing"),
        record s {
          world = (C.get name s.world).1;
          log = (name, block_event C "managed_label_missing") ∷ s.log;
        },
      )
  unfolding restart_managed security_block
  restart_container-unmanaged c listed e unmanaged =
      restart_container-listed listed ∙ rw (e, unmanaged)

  restart_container-managed :
      (c : C.Container)
      → contains (clean_names allowed) name ≡ true
      → found ≡ ok c
      → is_managed C c ≡ true
      → restart_container C allowed name s ≡ (
        (C.restart c 10 looked_up.world).0,
        record s { world = (C.restart c 10 looked_up.world).1 },
      )
  restart_container-managed c listed e managed =
      restart_container-listed listed ∙ rw e (restart_managed-done c managed)

  -- What a call has done, with its answer and the state that it leaves. Only in the last case has
  -- the client been asked for a restart.
  pub data Answered (r : Result (Unit {0})) (after : Station C) : Type 0 where
    not_listed :
        ¬ Given allowed name
        → r ≡ err (security_block_error "container_not_in_allowlist")
        → after ≡ record s { log = (name, block_event C "container_not_in_allowlist") ∷ s.log }
        → Answered r after
    not_found :
        (x : Exception)
        → Given allowed name
        → found ≡ err x
        → r ≡ err x
        → after ≡ record s { world = (C.get name s.world).1 }
        → Answered r after
    unmanaged :
        (c : C.Container)
        → Given allowed name
        → found ≡ ok c
        → C.label c "io.nexguard.managed" ≢ some "true"
        → r ≡ err (security_block_error "managed_label_missing")
        → after ≡ record s {
          world = (C.get name s.world).1;
          log = (name, block_event C "managed_label_missing") ∷ s.log;
        }
        → Answered r after
    restarted :
        (c : C.Container)
        → Given allowed name
        → found ≡ ok c
        → C.label c "io.nexguard.managed" ≡ some "true"
        → r ≡ (C.restart c 10 (C.get name s.world).1).0
        → after ≡ record s { world = (C.restart c 10 (C.get name s.world).1).1 }
        → Answered r after

  label-of_unmanaged :
      (c : C.Container) → is_managed C c ≡ false → C.label c "io.nexguard.managed" ≢ some "true"
  label-of_unmanaged c h e = ground arith

  restart_container-not_found :
      (x : Exception)
      → contains (clean_names allowed) name ≡ true
      → found ≡ err x
      → restart_container C allowed name s ≡ (err x, looked_up)
  restart_container-not_found x listed e = restart_container-listed listed ∙ rw e

  abbrev answer : Result (Unit {0}) × Station C → Result (Unit {0})
  answer p = p.0

  abbrev state : Result (Unit {0}) × Station C → Station C
  state p = p.1

  found-Answered :
      contains (clean_names allowed) name ≡ true
      → (r : Result C.Container) → found ≡ r
      → Answered (restart_container C allowed name s).0 (restart_container C allowed name s).1
  found-Answered listed (err x) e =
      let lem = restart_container-not_found x listed e in
      not_found x (clean_names-Given allowed name listed) e (ap answer lem) (ap state lem)
  found-Answered listed (ok c) e = elim (Bool-cases (is_managed C c)) [
    | inl managed ↦
        let lem = restart_container-managed c listed e managed in
        restarted c (clean_names-Given allowed name listed) e (label-of_is_managed c managed)
          (ap answer lem) (ap state lem)
    | inr bare ↦
        let lem = restart_container-unmanaged c listed e bare in
        Answered.unmanaged c (clean_names-Given allowed name listed) e (label-of_unmanaged c bare)
          (ap answer lem) (ap state lem)
  ]

  -- Whatever a call of `restart_container` answers, the client was asked for a restart only of the
  -- container that it has found under the name, where the name is not empty and is, without the
  -- space at its ends, one of those that are allowed, and the container has the managed label; the
  -- answer is then that of the client. A name that is not allowed is refused without a call of the
  -- client, a container without the label after the lookup alone, and both refusals are logged.
  pub restart_container-allowed :
      Answered (restart_container C allowed name s).0 (restart_container C allowed name s).1
  restart_container-allowed = elim (Bool-cases (contains (clean_names allowed) name)) [
    | inl listed ↦ found-Answered listed found refl
    | inr off ↦
        let lem = restart_container-not_listed off in
        not_listed (λ g. let t = Given-clean_names allowed name g in ground arith) (ap answer lem)
          (ap state lem)
  ]
