-- ===== src/Contracts/Tests.antt =====
-- A deployment, and its guarantees at a concrete chain.
use nexguard_sentinel.Prelude.{
  ℕ, ◌+◌, String, true, false, none, some, List, [], ◌∷◌, ◌++◌, ◌==◌, nats_eq, nat_eq, string_eq,
  if◌then◌else◌, ◌≡◌, refl, ◌⊎◌,
}
use nexguard_sentinel.Python.Exec.{Exception, ok, err}
use nexguard_sentinel.Python.Text.{Text, codes, strip, lstrip, rstrip, is_space}
use nexguard_sentinel.Disk.{Bytes, FilePath, File, lookup, syscall, read_file}
use nexguard_sentinel.Contracts.Web3.{Web3}
use nexguard_sentinel.Contracts.Deploy.{
  Environment, Evidence, Deployment, Session, required_env, validate_chain, validate_roles, print,
  checksum_address, load_artifact, fee_fields, broadcast_creation, deploy_contract,
  verify_deployment,
}
use nexguard_sentinel.Contracts.Main.{Plan, plan, deploy, main}
use nexguard_sentinel.Contracts.Main.Deployed.{Planned, IsTrue, main-IsTrue}
use nexguard_sentinel.Contracts.Main.Allowed.{Idle, main-Idle}

-- The world counts the transactions that were sent. A contract's address is its transaction's
-- number, and the contracts have the roles that they were made with.
abbrev chain : ℕ → Web3
chain id = record {
  World = ℕ;
  Json = Text;
  Abi = Text;
  Account = Text;
  Payload = List Text;
  Signed = List Text;
  Hash = ℕ;
  utf8 = λ b. some b;
  loads = λ t. ok t;
  bytecode = λ j. ok (some j);
  abi = λ j. ok j;
  is_address = λ t. true;
  to_checksum_address = λ t. ok t;
  from_key = λ k. ok (codes "me");
  address = λ a. a;
  chain_id = λ w. (ok id, w);
  pending_base_fee = λ w. (ok (some 7), w);
  max_priority_fee = λ w. (ok 2, w);
  get_transaction_count = λ a w. (ok w, w);
  build_transaction = λ abi code args fields w. (ok args, w);
  estimate_gas = λ fields payload w. (ok 21000, w);
  sign_transaction = λ account fields payload gas. ok payload;
  send_raw_transaction = λ signed w. (ok w, w + 1);
  hex = λ h. h ∷ [];
  wait_for_transaction_receipt =
      λ h w. (ok (record { status = 1; contract_address = some (h ∷ []); block_number = h }), w);
  call_owner = λ abi a w. (ok (codes "owner"), w);
  call_keepers = λ abi a k w. (ok true, w);
  call_paused = λ abi a w. (ok false, w);
  call_guardian = λ abi a w. (ok (5 ∷ []), w);
}

abbrev environment : Environment
environment name =
    if name == "OWNER_ADDRESS"
    then some (codes "owner")
    else if name == "KEEPER_ADDRESS"
    then some (codes " keeper ")
    else some (codes "set")

abbrev artifact : String → FilePath × File
artifact name = (
  record {
    parent = codes "contracts/out/" ++ codes name ++ codes ".sol";
    name = codes name ++ codes ".json";
  },
  record { contents = codes "0x60"; mode = 0o644; gid = 0 },
)

abbrev start : (id : ℕ) → Session (chain id)
start id = record {
  world = 5;
  disk = record {
    files = artifact "Guardian" ∷ artifact "DemoVault" ∷ [];
    dirs = [];
    group = 0;
    faults = [];
    tokens = [];
  };
  printed = [];
}

abbrev json : Evidence → Bytes
json e = codes "{}"

abbrev deployment : String → ℕ → Deployment
deployment name n = record {
  name = name;
  address = n ∷ [];
  transaction_hash = n ∷ [];
  block_number = n;
}

abbrev evidence : Evidence
evidence = record {
  verified_at = codes "now";
  chain_id = 84532;
  deployer = codes "me";
  owner = codes "owner";
  keeper = codes "keeper";
  guardian = deployment "Guardian" 5;
  vault = deployment "DemoVault" 6;
  guardian_owner = true;
  keeper_enabled = true;
  guardian_initially_unpaused = true;
  vault_reads_guardian = true;
}

deploys :
    (main (chain 84532) 0o644 json environment none (codes "now") (start 84532)).0 ≡ ok evidence
unfolding main plan deploy required_env validate_chain validate_roles print checksum_address
    load_artifact fee_fields broadcast_creation deploy_contract verify_deployment strip lstrip
    rstrip is_space lookup syscall read_file nats_eq nat_eq string_eq
deploys = refl

main-IsTrue_example : IsTrue (chain 84532) 0o644 json environment (start 84532).disk.files evidence
main-IsTrue_example =
    main-IsTrue (chain 84532) 0o644 json environment none (codes "now") (start 84532) evidence
      deploys

-- On another chain nothing is sent.
main-Idle_example :
    (((e : Exception) × ((main (chain 1) 0o644 json environment none (codes "now") (start 1)).0
          ≡ err e))
      × Idle
          (chain 1)
          0o644
          json
          environment
          none
          (codes "now")
          (λ w. ◌≡◌ {A = ℕ} w 5)
          (start 1)
          (main (chain 1) 0o644 json environment none (codes "now") (start 1)).1)
    ⊎ ((p : Plan (chain 1) 0o644 json) × Planned (chain 1) 0o644 json environment p)
main-Idle_example =
    main-Idle (chain 1) 0o644 json environment none (codes "now") (λ w. ◌≡◌ {A = ℕ} w 5) (start 1)
      (λ w h. h) (λ a w h. h) refl
