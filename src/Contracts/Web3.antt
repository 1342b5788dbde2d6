-- ===== src/Contracts/Web3.antt =====
-- What contracts/deploy.py calls of web3, eth_account and json: parameters of the model, over an
-- unknown world that the calls change.
use nexguard_sentinel.Prelude.{ℕ, Bool, Option, List}
use nexguard_sentinel.Python.Exec.{Result, Exec}
use nexguard_sentinel.Python.Text.{Text}
use nexguard_sentinel.Disk.{Bytes}

-- The fields that the source gives to `build_transaction`.
pub record TxParams : Type 0 where
  pub chain_id : ℕ
  pub sender : Text
  pub nonce : ℕ
  pub max_fee : ℕ
  pub priority_fee : ℕ

pub record Receipt : Type 0 where
  pub status : ℕ
  pub contract_address : Option Text
  pub block_number : ℕ

pub record Web3 : Type 1 where
  pub World : Type 0
  pub Json : Type 0
  pub Abi : Type 0
  pub Account : Type 0
  -- what `build_transaction` adds to the fields that it is given
  pub Payload : Type 0
  pub Signed : Type 0
  pub Hash : Type 0
  -- json.loads of the text of a file, whose bytes are decoded as UTF-8
  pub utf8 : Bytes → Option Text
  pub loads : Text → Result Json
  -- artifact["bytecode"]["object"], where it is a str, and artifact["abi"]
  pub bytecode : Json → Result (Option Text)
  pub abi : Json → Result Abi
  pub is_address : Text → Bool
  pub to_checksum_address : Text → Result Text
  pub from_key : Text → Result Account
  pub address : Account → Text
  pub chain_id : Exec World ℕ
  -- the base fee of the pending block, if it has one
  pub pending_base_fee : Exec World (Option ℕ)
  pub max_priority_fee : Exec World ℕ
  pub get_transaction_count : Text → Exec World ℕ
  pub build_transaction : Abi → Text → List Text → TxParams → Exec World Payload
  pub estimate_gas : TxParams → Payload → Exec World ℕ
  -- the transaction with its gas
  pub sign_transaction : Account → TxParams → Payload → ℕ → Result Signed
  pub send_raw_transaction : Signed → Exec World Hash
  pub hex : Hash → Text
  pub wait_for_transaction_receipt : Hash → Exec World Receipt
  -- the calls of the contracts' functions, at an address
  pub call_owner : Abi → Text → Exec World Text
  pub call_keepers : Abi → Text → Text → Exec World Bool
  pub call_paused : Abi → Text → Exec World Bool
  pub call_guardian : Abi → Text → Exec World Text
