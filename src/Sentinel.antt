-- ===== src/Sentinel.antt =====
-- sentinel/config.py: `Settings.from_env`. `urlsplit` is a parameter. `lower` is that of the ASCII
-- letters: no other letter has a lower case among the characters that the test of an address lets
-- through. In the texts of the exceptions `…` stands for the name of a variable.
pub mod Fields
pub mod Valid
mod Tests
use nexguard_sentinel.Prelude.{
  ℕ, String, Bool, true, false, not, ◌||◌, Option, none, some, List, [], ◌∷◌, ltb, length, ◌==◌,
  nat_eq, nats_eq, if◌then◌else◌, ℤ, pos, negsuc,
}
use nexguard_sentinel.Python.Exec.{Exception, Result, ok, err, value_error}
pub use nexguard_sentinel.Python.Environ.{Environment, get, parsed}
use nexguard_sentinel.Python.Outcome.{◌>>=◌, ◌>>◌}
use nexguard_sentinel.Python.Text.{Text, codes, strip, lower, starts_with_0x}
use nexguard_sentinel.Python.Number.{int}
use nexguard_sentinel.Python.Pathlib.{dir_path}

pub record Url : Type 0 where
  pub scheme : Text
  pub hostname : Option Text
  pub username : Option Text

pub record Settings : Type 0 where
  pub rpc_http : Text
  pub subgraph_url : Text
  pub guardian_address : Text
  pub vault_address : Text
  -- the text of the path
  pub state_path : Text
  pub chain_id : ℤ
  pub confirmations : ℤ
  pub rewind_blocks : ℤ

abbrev pub refuse : Bool → String → Result (Unit {0})
refuse true message = err (value_error message)
refuse false message = ok tt

abbrev pub is_true : Option Text → Bool
is_true none = false
is_true (some t) = not (t == [])

abbrev pub lt_int : ℤ → ℤ → Bool
lt_int (pos m) (pos n) = ltb m n
lt_int (pos m) (negsuc n) = false
lt_int (negsuc m) (pos n) = true
lt_int (negsuc m) (negsuc n) = ltb n m

abbrev pub eq_int : ℤ → ℤ → Bool
eq_int (pos m) (pos n) = m == n
eq_int (negsuc m) (negsuc n) = m == n
eq_int _ _ = false

abbrev pub address_number : Option ℤ → Result ℤ
address_number none = err (value_error "… must be an Ethereum address")
address_number (some n) = ok n

-- value[2:]
abbrev pub drop_two : Text → Text
drop_two (a ∷ b ∷ t) = t
drop_two _ = []

unfoldable pub required : Environment → String → Result Text
required env name = do
  let value = strip (get env name [])
  refuse (value == []) "… is required"
  ok value

unfoldable pub address : Environment → String → Result Text
address env name = do
  given ← required env name
  let value = lower given
  refuse (not (length value == 42) || not (starts_with_0x value)) "… must be an Ethereum address"
  number ← address_number (int 16 (drop_two value))
  refuse (eq_int number (pos 0)) "… cannot be zero"
  ok value

unfoldable pub int_setting : Environment → String → Text → Result ℤ
int_setting env name default = parsed (int 10 (get env name default))

module _ (urlsplit : Text → Result Url) where
  unfoldable pub endpoint : Environment → String → Result Text
  endpoint env name = do
    value ← required env name
    url ← urlsplit value
    refuse (not (url.scheme == codes "https") || not (is_true url.hostname) || is_true url.username)
        "… must be an HTTPS endpoint without userinfo"
    ok value

  unfoldable pub from_env : Environment → Result Settings
  from_env env = do
    chain ← int_setting env "CHAIN_ID" (codes "84532")
    confirmations ← int_setting env "SENTINEL_CONFIRMATIONS" (codes "2")
    rewind ← int_setting env "SENTINEL_REWIND_BLOCKS" (codes "2")
    refuse (not (eq_int chain (pos 84532))) "Only Base Sepolia chain 84532 is supported"
    refuse (lt_int confirmations (pos 1) || lt_int rewind confirmations)
        "Require confirmations >= 1 and rewind >= confirmations"
    let state = strip (get env "SENTINEL_STATE_PATH" (codes ".sentinel/state.sqlite3"))
    refuse (state == [] || state == codes ":memory:") "A durable state path is required"
    rpc_http ← endpoint env "RPC_HTTP"
    subgraph_url ← endpoint env "SUBGRAPH_URL"
    guardian_address ← address env "GUARDIAN_ADDRESS"
    vault_address ← address env "VAULT_ADDRESS"
    ok (record {
      rpc_http = rpc_http;
      subgraph_url = subgraph_url;
      guardian_address = guardian_address;
      vault_address = vault_address;
      state_path = dir_path state;
      chain_id = chain;
      confirmations = confirmations;
      rewind_blocks = rewind;
    })
