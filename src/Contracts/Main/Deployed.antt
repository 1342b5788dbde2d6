-- ===== src/Contracts/Main/Deployed.antt =====
-- What a deployment that returns has sent, and what it has read back.
use nexguard_sentinel.Prelude.{
  ℕ, ◌+◌, false, Option, [], ◌∷◌, ◌==◌, nat_eq, nats_eq, ◌≡◌, refl, arith,
}
use nexguard_sentinel.Python.Exec.{ok}
use nexguard_sentinel.Python.Gives.{
  Gives, bind, lifts, pures, anything, Keeps, bind-Keeps, lift-Keeps, pure-Keeps, Holds, bind-Holds,
  pure-Holds, kept-Holds, Begins, bind-Begins, rest-Begins,
}
use nexguard_sentinel.Python.Text.{Text}
use nexguard_sentinel.Disk.{Bytes, FilePath}
use nexguard_sentinel.Contracts.Main.{Plan, plan, deploy, save_evidence, evidence_for, main}
use nexguard_sentinel.Contracts.Web3.{Web3}
use nexguard_sentinel.Contracts.Deploy.{
  Environment, required_env, checksum_address, validate_chain, validate_roles, Evidence,
  evidence_of, base_sepolia_chain_id, Session, print,
}
use nexguard_sentinel.Contracts.Artifacts.{Files, HasFiles, on_world-Keeps}
use nexguard_sentinel.Contracts.Created.{
  Reads, reads, on_world-Gives, Created, deploy_contract-Holds,
}
use nexguard_sentinel.Contracts.Verified.{Verified, verify_deployment-Holds}

module _ (W : Web3) (mode : ℕ) (evidence_json : Evidence → Bytes) (env : Environment) where
  abbrev P : Type 0
  P = Plan W mode evidence_json

  -- The checks that the plan has passed.
  pub record Planned (p : P) : Type 0 where
    pub rpc : Text
    pub rpc_set : required_env env "RPC_HTTP" ≡ ok rpc
    pub key : Text
    pub key_set : required_env env "DEPLOYER_PRIVATE_KEY" ≡ ok key
    pub unlocks : W.from_key key ≡ ok p.account
    pub chain_read : Reads W W.chain_id p.actual_chain
    pub chain : p.actual_chain ≡ base_sepolia_chain_id
    pub roles_differ : (p.owner == p.keeper) ≡ false
    pub owner : checksum_address W env "OWNER_ADDRESS" ≡ ok p.owner
    pub keeper : checksum_address W env "KEEPER_ADDRESS" ≡ ok p.keeper
    pub nonce : Reads W (W.get_transaction_count (W.address p.account)) p.nonce

  validate_chain-ok : (n : ℕ) (x : Unit {0}) → validate_chain n ≡ ok x → n ≡ base_sepolia_chain_id
  unfolding validate_chain
  validate_chain-ok n x h = ground arith

  validate_roles-ok : (a b : Text) (x : Unit {0}) → validate_roles a b ≡ ok x → (a == b) ≡ false
  unfolding validate_roles
  validate_roles-ok a b x h = ground arith

  pub plan-Gives : Gives (plan W mode evidence_json env) Planned
  unfolding plan
  plan-Gives = bind (lifts (required_env env "RPC_HTTP")) (λ rpc rs.
      bind (on_world-Gives W (reads W W.chain_id)) (λ chain r.
        bind (lifts (validate_chain chain)) (λ x c.
          bind (lifts (required_env env "DEPLOYER_PRIVATE_KEY")) (λ key ks.
            bind (lifts (W.from_key key)) (λ account u.
              bind (lifts (checksum_address W env "OWNER_ADDRESS")) (λ owner o.
                bind (lifts (checksum_address W env "KEEPER_ADDRESS")) (λ keeper k.
                  bind (lifts (validate_roles owner keeper)) (λ y d.
                    bind (on_world-Gives W (reads W (W.get_transaction_count (W.address account))))
                      (λ nonce n. pures (record {
                        rpc = rpc;
                        rpc_set = rs;
                        key = key;
                        key_set = ks;
                        unlocks = u;
                        chain_read = r;
                        chain = validate_chain-ok chain x c;
                        roles_differ = validate_roles-ok owner keeper y d;
                        owner = o;
                        keeper = k;
                        nonce = n;
                      }))))))))))

  plan-Keeps : (files : Files) → Keeps (HasFiles W files) (plan W mode evidence_json env)
  unfolding plan
  plan-Keeps files = bind-Keeps (lift-Keeps (required_env env "RPC_HTTP")) (λ _.
      bind-Keeps (on_world-Keeps W files W.chain_id) (λ chain.
        bind-Keeps (lift-Keeps (validate_chain chain)) (λ _.
          bind-Keeps (lift-Keeps (required_env env "DEPLOYER_PRIVATE_KEY")) (λ key.
            bind-Keeps (lift-Keeps (W.from_key key)) (λ account.
              bind-Keeps (lift-Keeps (checksum_address W env "OWNER_ADDRESS")) (λ owner.
                bind-Keeps (lift-Keeps (checksum_address W env "KEEPER_ADDRESS")) (λ keeper.
                  bind-Keeps (lift-Keeps (validate_roles owner keeper)) (λ _.
                    bind-Keeps
                      (on_world-Keeps W files (W.get_transaction_count (W.address account)))
                      (λ _. pure-Keeps)))))))))

  -- What evidence of a deployment stands for, with these files on the disk.
  pub record IsTrue (files : Files) (e : Evidence) : Type 0 where
    pub account : W.Account
    pub nonce : ℕ
    pub chain_read : Reads W W.chain_id e.chain_id
    pub chain : e.chain_id ≡ base_sepolia_chain_id
    pub deployer : e.deployer ≡ W.address account
    pub roles_differ : (e.owner == e.keeper) ≡ false
    pub nonce_read : Reads W (W.get_transaction_count (W.address account)) nonce
    pub guardian_created :
        Created W files account "Guardian" (e.owner ∷ e.keeper ∷ []) nonce e.guardian
    pub vault_created :
        Created W files account "DemoVault" (e.guardian.address ∷ []) (nonce + 1) e.vault
    pub verified : Verified W files e.guardian e.vault e.owner e.keeper

  deploy-Holds :
      (files : Files) (p : P)
      → Holds (HasFiles W files) (deploy W mode evidence_json p) (λ d.
        Created W files p.account "Guardian" (p.owner ∷ p.keeper ∷ []) p.nonce d.0
        × Created W files p.account "DemoVault" (d.0.address ∷ []) (p.nonce + 1) d.1
        × Verified W files d.0 d.1 p.owner p.keeper)
  unfolding deploy
  deploy-Holds files p =
      bind-Holds
        (deploy_contract-Holds W files p.account "Guardian" (p.owner ∷ p.keeper ∷ []) p.nonce)
        (λ g c.
          bind-Holds
            (deploy_contract-Holds W files p.account "DemoVault" (g.address ∷ []) (p.nonce + 1))
            (λ v d.
              bind-Holds (verify_deployment-Holds W files g v p.owner p.keeper)
                (λ _ r. pure-Holds (c, d, r))))

  main-Begins :
      (files : Files) (path : Option FilePath) (now : Text)
      → Begins (HasFiles W files) (main W mode evidence_json env path now) (IsTrue files)
  unfolding main
  main-Begins files path now = bind-Begins (kept-Holds plan-Gives (plan-Keeps files)) (λ p planned.
      bind-Begins (deploy-Holds files p) (λ d (c, v, r). rest-Begins (
        bind
          (anything (
            save_evidence W mode evidence_json path
              (evidence_json (evidence_for W mode evidence_json now p d.0 d.1))))
          (λ _ _.
            bind
              (anything (print W (evidence_of (evidence_for W mode evidence_json now p d.0 d.1))))
              (λ _ _. pures (record {
                account = p.account;
                nonce = p.nonce;
                chain_read = planned.chain_read;
                chain = planned.chain;
                deployer = refl;
                roles_differ = planned.roles_differ;
                nonce_read = planned.nonce;
                guardian_created = c;
                vault_created = v;
                verified = r;
              }))))))

  -- If `main` returns, then its evidence is true: the chain is Base Sepolia and was read from the
  -- node, the owner and the keeper differ, and each of `Guardian` and `DemoVault` was built from the
  -- ABI and the bytecode of the file under contracts/out that has its name, as it was on the disk
  -- when `main` began, with its arguments, signed and sent with the next nonce, and its receipt
  -- reports success and gives its address; and the owner, the keeper, the pause and the guardian of
  -- the vault were read back from the contracts through the ABIs of the same two files.
  pub main-IsTrue :
      (path : Option FilePath) (now : Text) (s : Session W) (e : Evidence)
      → (main W mode evidence_json env path now s).0 ≡ ok e
      → IsTrue s.disk.files e
  main-IsTrue path now s e h = (main-Begins s.disk.files path now).begins s refl e h
