-- ===== src/Contracts/Deploy.antt =====
-- The functions of contracts/deploy.py below `main`. In the texts of the exceptions `…` stands for the
-- names that the source puts in.
use nexguard_sentinel.Prelude.{
  ℕ, ◌+◌, ◌*◌, ◌/◌, String, Bool, not, Option, none, some, List, [], ◌∷◌, ◌++◌, ◌==◌, nat_eq,
  nats_eq, if◌then◌else◌,
}
use nexguard_sentinel.Python.Exec.{
  Result, ok, err, runtime_error, Exec, pure, lift, gets, modify, refuse_if, ◌>>=◌, ◌>>◌,
}
use nexguard_sentinel.Python.Text.{Text, codes, strip, starts_with_0x}
use nexguard_sentinel.Disk.{FilePath, Disk, lookup, is_free, read_file}
use nexguard_sentinel.Controller.Backup.{decoded}
use nexguard_sentinel.Contracts.Web3.{TxParams, Receipt, Web3}

pub record Deployment : Type 0 where
  pub name : String
  pub address : Text
  pub transaction_hash : Text
  pub block_number : ℕ

-- The evidence that `main` prints and saves.
pub record Evidence : Type 0 where
  pub verified_at : Text
  pub chain_id : ℕ
  pub deployer : Text
  pub owner : Text
  pub keeper : Text
  pub guardian : Deployment
  pub vault : Deployment
  pub guardian_owner : Bool
  pub keeper_enabled : Bool
  pub guardian_initially_unpaused : Bool
  pub vault_reads_guardian : Bool

abbrev pub base_sepolia_chain_id : ℕ
base_sepolia_chain_id = 84532

-- The environment, by name.
abbrev pub Environment : Type 0
Environment = String → Option Text

abbrev pub text_or_empty : Option Text → Text
text_or_empty none = []
text_or_empty (some t) = t

unfoldable pub required_env : Environment → String → Result Text
required_env env name =
    let value = strip (text_or_empty (env name)) in
    if value == [] then err (runtime_error "… is required") else ok value

unfoldable pub validate_chain : ℕ → Result (Unit {0})
validate_chain actual_chain =
    if not (actual_chain == base_sepolia_chain_id)
    then err (runtime_error "Refusing deployment")
    else ok tt

unfoldable pub validate_roles : Text → Text → Result (Unit {0})
validate_roles owner keeper =
    if owner == keeper
    then err (runtime_error "OWNER_ADDRESS and KEEPER_ADDRESS must differ")
    else ok tt

module _ (W : Web3) where
  open W use {World, Json, Abi, Account, Hash}

  -- What is printed: a broadcast, or the evidence.
  pub data Printed : Type 0 where
    deployment_broadcast : String → Text → Printed
    evidence_of : Evidence → Printed

  pub record Session : Type 0 where
    pub world : World
    pub disk : Disk
    pub printed : List Printed

  abbrev pub on_world : {A : Type 0} → Exec World A → Exec Session A
  on_world m s = ((m s.world).0, record s { world = (m s.world).1 })

  abbrev pub on_disk : {A : Type 0} → Exec Disk A → Exec Session A
  on_disk m s = ((m s.disk).0, record s { disk = (m s.disk).1 })

  unfoldable pub print : Printed → Exec Session (Unit {0})
  print line = modify (λ (s : Session). record s { printed = line ∷ s.printed })

  abbrev pub checked_address : Text → Result Text
  checked_address value =
      if not (W.is_address value)
      then err (runtime_error "… must be a valid address")
      else W.to_checksum_address value

  unfoldable pub checksum_address : Environment → String → Result Text
  checksum_address env name = elim (required_env env name) [
    | ok value ↦ checked_address value
    | err e ↦ err e
  ]

  -- CONTRACTS / "out" / f"{contract_name}.sol" / f"{contract_name}.json"
  abbrev pub artifact_path : String → FilePath
  artifact_path name = record {
    parent = codes "contracts/out/" ++ codes name ++ codes ".sol";
    name = codes name ++ codes ".json";
  }

  abbrev pub is_file : FilePath → Exec Disk Bool
  is_file p = gets (λ (s : Disk). not (is_free (lookup p s.files)))

  abbrev pub read_json : FilePath → Exec Disk Json
  read_json p = do
    file ← read_file p
    text ← lift (decoded (W.utf8 file.contents))
    lift (W.loads text)

  unfoldable pub load_artifact : String → Exec Disk Json
  load_artifact name = do
    there ← is_file (artifact_path name)
    refuse_if (not there) (runtime_error "Missing …; run `cd contracts && forge build` first")
    read_json (artifact_path name)

  abbrev pub known_base_fee : Option ℕ → Result ℕ
  known_base_fee none =
      err (runtime_error "RPC pending block does not expose EIP-1559 baseFeePerGas")
  known_base_fee (some fee) = ok fee

  -- The maximum fee and the priority fee.
  unfoldable pub fee_fields : Exec World (ℕ × ℕ)
  fee_fields = do
    pending ← W.pending_base_fee
    base_fee ← lift (known_base_fee pending)
    priority_fee ← W.max_priority_fee
    pure (base_fee * 2 + priority_fee, priority_fee)

  abbrev pub valid_bytecode : Option Text → Result Text
  valid_bytecode none = err (runtime_error "Invalid bytecode in artifact")
  valid_bytecode (some bytecode) =
      if not (starts_with_0x bytecode)
      then err (runtime_error "Invalid bytecode in artifact")
      else ok bytecode

  -- The parts of an artifact that a deployment uses.
  abbrev pub code_of : Json → Result (Abi × Text)
  code_of artifact = elim (W.bytecode artifact) [
    | err e ↦ err e
    | ok object ↦ elim (valid_bytecode object) [
      | err e ↦ err e
      | ok bytecode ↦ elim (W.abi artifact) [ err e ↦ err e | ok abi ↦ ok (abi, bytecode) ]
    ]
  ]

  -- estimated_gas * 120 // 100
  abbrev pub gas_limit : ℕ → ℕ
  gas_limit estimated_gas = estimated_gas * 120 / 100

  -- The transaction is built, signed and sent.
  unfoldable pub broadcast_creation : Account → Abi × Text → List Text → ℕ → Exec World Hash
  broadcast_creation account code constructor_args nonce = do
    fees ← fee_fields
    let fields : TxParams = record {
      chain_id = base_sepolia_chain_id;
      sender = W.address account;
      nonce = nonce;
      max_fee = fees.0;
      priority_fee = fees.1;
    }
    payload ← W.build_transaction code.0 code.1 constructor_args fields
    estimated_gas ← W.estimate_gas fields payload
    signed ← lift (W.sign_transaction account fields payload (gas_limit estimated_gas))
    W.send_raw_transaction signed

  -- The address of a receipt of success.
  abbrev pub created_address : Receipt → Option Text → Result Text
  created_address receipt none = err (runtime_error "… deployment failed")
  created_address receipt (some address) =
      if not (receipt.status == 1)
      then err (runtime_error "… deployment failed")
      else W.to_checksum_address address

  unfoldable pub deploy_contract : Account → String → List Text → ℕ → Exec Session Deployment
  deploy_contract account contract_name constructor_args nonce = do
    artifact ← on_disk (load_artifact contract_name)
    code ← lift (code_of artifact)
    tx_hash ← on_world (broadcast_creation account code constructor_args nonce)
    print (deployment_broadcast contract_name (W.hex tx_hash))
    receipt ← on_world (W.wait_for_transaction_receipt tx_hash)
    address ← lift (created_address receipt receipt.contract_address)
    pure (record {
      name = contract_name;
      address = address;
      transaction_hash = W.hex tx_hash;
      block_number = receipt.block_number;
    })

  unfoldable pub verify_deployment : Deployment → Deployment → Text → Text → Exec Session (Unit {0})
  verify_deployment guardian vault owner keeper = do
    guardian_artifact ← on_disk (load_artifact "Guardian")
    vault_artifact ← on_disk (load_artifact "DemoVault")
    guardian_abi ← lift (W.abi guardian_artifact)
    vault_abi ← lift (W.abi vault_artifact)
    actual_owner ← on_world (W.call_owner guardian_abi guardian.address)
    refuse_if (not (actual_owner == owner)) (runtime_error "Guardian owner verification failed")
    enabled ← on_world (W.call_keepers guardian_abi guardian.address keeper)
    refuse_if (not enabled) (runtime_error "Guardian keeper verification failed")
    paused ← on_world (W.call_paused guardian_abi guardian.address)
    refuse_if paused (runtime_error "Guardian unexpectedly starts paused")
    actual_guardian ← on_world (W.call_guardian vault_abi vault.address)
    refuse_if (not (actual_guardian == guardian.address))
        (runtime_error "DemoVault Guardian verification failed")
