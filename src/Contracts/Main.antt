-- ===== src/Contracts/Main.antt =====
-- `main` of contracts/deploy.py. The environment, as `load_dotenv` leaves it, and the evidence path are
-- arguments.
pub mod Allowed
pub mod Deployed
use nexguard_sentinel.Prelude.{
  ℕ, ◌+◌, String, Bool, true, false, Option, none, some, List, [], ◌∷◌, ◌++◌, ◌==◌, nats_eq,
  if◌then◌else◌,
}
use nexguard_sentinel.Python.Exec.{Exception, Result, ok, err, Exec, pure, raise, lift, ◌>>=◌, ◌>>◌}
use nexguard_sentinel.Python.Text.{Text, codes}
use nexguard_sentinel.Disk.{Bytes, FilePath, Disk, make_dir, open_file, write, replace}
use nexguard_sentinel.Contracts.Web3.{Web3}
use nexguard_sentinel.Contracts.Deploy.{
  Environment, required_env, validate_chain, validate_roles, Deployment, Evidence, Session, Printed,
  evidence_of, on_world, on_disk, print, checksum_address, deploy_contract, verify_deployment,
}

-- path.with_suffix(path.suffix + ".tmp")
abbrev pub temporary_of : FilePath → FilePath
temporary_of p = record p { name = p.name ++ codes ".tmp" }

-- `atomic_write_json`, from the bytes of the JSON text; `mode` is what the process gives new files.
unfoldable pub atomic_write_json : ℕ → FilePath → Bytes → Exec Disk (Unit {0})
atomic_write_json mode path contents = do
  make_dir path.parent
  open_file (temporary_of path) mode
  write (temporary_of path) contents
  replace (temporary_of path) path

module _ (W : Web3) (mode : ℕ) (evidence_json : Evidence → Bytes) where
  -- What `main` reads before it deploys anything.
  pub record Plan : Type 0 where
    pub account : W.Account
    pub actual_chain : ℕ
    pub owner : Text
    pub keeper : Text
    pub nonce : ℕ

  unfoldable pub plan : Environment → Exec (Session W) Plan
  plan env = do
    rpc ← lift (required_env env "RPC_HTTP")
    actual_chain ← on_world W W.chain_id
    lift (validate_chain actual_chain)
    key ← lift (required_env env "DEPLOYER_PRIVATE_KEY")
    account ← lift (W.from_key key)
    owner ← lift (checksum_address W env "OWNER_ADDRESS")
    keeper ← lift (checksum_address W env "KEEPER_ADDRESS")
    lift (validate_roles owner keeper)
    nonce ← on_world W (W.get_transaction_count (W.address account))
    pure (record {
      account = account;
      actual_chain = actual_chain;
      owner = owner;
      keeper = keeper;
      nonce = nonce;
    })

  abbrev pub save_evidence : Option FilePath → Bytes → Exec (Session W) (Unit {0})
  save_evidence none contents = pure tt
  save_evidence (some path) contents = on_disk W (atomic_write_json mode path contents)

  -- The deployments and their verification.
  unfoldable pub deploy : Plan → Exec (Session W) (Deployment × Deployment)
  deploy p = do
    guardian ← deploy_contract W p.account "Guardian" (p.owner ∷ p.keeper ∷ []) p.nonce
    vault ← deploy_contract W p.account "DemoVault" (guardian.address ∷ []) (p.nonce + 1)
    verify_deployment W guardian vault p.owner p.keeper
    pure (guardian, vault)

  abbrev pub evidence_for : Text → Plan → Deployment → Deployment → Evidence
  evidence_for now p guardian vault = record {
    verified_at = now;
    chain_id = p.actual_chain;
    deployer = W.address p.account;
    owner = p.owner;
    keeper = p.keeper;
    guardian = guardian;
    vault = vault;
    guardian_owner = true;
    keeper_enabled = true;
    guardian_initially_unpaused = true;
    vault_reads_guardian = true;
  }

  -- `now` is the time in the evidence, which comes back beside the state.
  unfoldable pub main : Environment → Option FilePath → Text → Exec (Session W) Evidence
  main env path now = do
    p ← plan env
    deployed ← deploy p
    let evidence = evidence_for now p deployed.0 deployed.1
    save_evidence path (evidence_json evidence)
    print W (evidence_of evidence)
    pure evidence
