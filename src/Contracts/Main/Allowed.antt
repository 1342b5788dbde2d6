-- ===== src/Contracts/Main/Allowed.antt =====
-- When a deployment sends anything.
use nexguard_sentinel.Prelude.{ℕ, Option, ◌≡◌, refl, ◌⊎◌, inl, inr}
use nexguard_sentinel.Python.Exec.{Exception, Result, ok, err, Exec, continue}
use nexguard_sentinel.Python.Gives.{Keeps, bind-Keeps, lift-Keeps, pure-Keeps}
use nexguard_sentinel.Python.Text.{Text}
use nexguard_sentinel.Disk.{Bytes, FilePath}
use nexguard_sentinel.Contracts.Web3.{Web3}
use nexguard_sentinel.Contracts.Deploy.{
  Environment, Evidence, Session, on_world, required_env, validate_chain, validate_roles,
  checksum_address,
}
use nexguard_sentinel.Contracts.Main.{Plan, plan, main}
use nexguard_sentinel.Contracts.Main.Deployed.{Planned, plan-Gives}

module _ (W : Web3) (mode : ℕ) (evidence_json : Evidence → Bytes) (env : Environment)
    (path : Option FilePath) (now : Text) (I : W.World → Type 0) (s : Session W) where
  -- Nothing has been printed or written, and the world keeps `I`.
  pub record Idle (t : Session W) : Type 0 where
    pub kept : I t.world
    pub same_disk : t.disk ≡ s.disk
    pub same_output : t.printed ≡ s.printed

  on_world-Keeps :
      {A : Type 0} (m : Exec W.World A)
      → ((w : W.World) → I w → I (m w).1)
      → Keeps Idle (on_world W m)
  on_world-Keeps m h = record {
    keeps = λ t i. record {
      kept = h t.world i.kept;
      same_disk = i.same_disk;
      same_output = i.same_output;
    };
  }

  module _ (chain_id : (w : W.World) → I w → I (W.chain_id w).1)
      (count : (a : Text) (w : W.World) → I w → I (W.get_transaction_count a w).1) where
    plan-Keeps : Keeps Idle (plan W mode evidence_json env)
    unfolding plan
    plan-Keeps = bind-Keeps (lift-Keeps (required_env env "RPC_HTTP")) (λ _.
        bind-Keeps (on_world-Keeps W.chain_id chain_id) (λ chain.
          bind-Keeps (lift-Keeps (validate_chain chain)) (λ _.
            bind-Keeps (lift-Keeps (required_env env "DEPLOYER_PRIVATE_KEY")) (λ key.
              bind-Keeps (lift-Keeps (W.from_key key)) (λ account.
                bind-Keeps (lift-Keeps (checksum_address W env "OWNER_ADDRESS")) (λ owner.
                  bind-Keeps (lift-Keeps (checksum_address W env "KEEPER_ADDRESS")) (λ keeper.
                    bind-Keeps (lift-Keeps (validate_roles owner keeper)) (λ _.
                      bind-Keeps
                        (on_world-Keeps (W.get_transaction_count (W.address account))
                          (count (W.address account)))
                        (λ _. pure-Keeps)))))))))

    -- What a run comes to, from what the plan has returned or raised.
    abbrev Outcome : Result Evidence × Session W → Type 0
    Outcome r =
        (((e : Exception) × (r.0 ≡ err e)) × Idle r.1)
        ⊎ ((p : Plan W mode evidence_json) × Planned W mode evidence_json env p)

    cases-of_plan :
        (r : Result (Plan W mode evidence_json)) (t : Session W)
        (f : Plan W mode evidence_json → Exec (Session W) Evidence)
        → Idle t
        → ((p : Plan W mode evidence_json) → r ≡ ok p → Planned W mode evidence_json env p)
        → Outcome (continue r f t)
    cases-of_plan (ok p) t f i h = inr (p, h p refl)
    cases-of_plan (err e) t f i h = inl ((e, refl), i)

    -- If `main` has not read Base Sepolia's chain id, or the owner, the keeper and the other settings
    -- were not all in order and the roles different, then it raises with nothing sent, printed or
    -- written: anything that reading the chain id and the count of transactions keeps still holds
    -- of the world.
    pub main-Idle :
        I s.world
        → (((e : Exception) × ((main W mode evidence_json env path now s).0 ≡ err e))
            × Idle (main W mode evidence_json env path now s).1)
          ⊎ ((p : Plan W mode evidence_json) × Planned W mode evidence_json env p)
    unfolding main
    main-Idle i =
        cases-of_plan (plan W mode evidence_json env s).0 (plan W mode evidence_json env s).1 _
          (plan-Keeps.keeps s (record { kept = i; same_disk = refl; same_output = refl }))
          (λ p h. (plan-Gives W mode evidence_json env).gives s p h)
