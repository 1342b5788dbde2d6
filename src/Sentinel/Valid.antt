-- ===== src/Sentinel/Valid.antt =====
-- Which settings `from_env` returns.
use nexguard_sentinel.Prelude.{ℕ, ◌≤◌, Bool, ◌||◌, [], ◌==◌, nat_eq, nats_eq, ◌≡◌, ◌≢◌, ℤ, pos}
use nexguard_sentinel.Python.Exec.{Result, ok}
use nexguard_sentinel.Python.Text.{Text, codes, strip}
use nexguard_sentinel.Python.Pathlib.{dir_path}
use nexguard_sentinel.Sentinel.Fields.{IsAddress, IsEndpoint}
use nexguard_sentinel.Sentinel.{Environment, Url, Settings, get, lt_int, int_setting}

-- One confirmation at least, and as many blocks of rewind as confirmations.
pub record Counts (confirmations rewind : ℤ) : Type 0 where
  pub m : ℕ
  pub n : ℕ
  pub is_m : confirmations ≡ pos m
  pub is_n : rewind ≡ pos n
  pub one : 1 ≤ m
  pub enough : m ≤ n

-- The test of the counts.
abbrev miscounted : ℤ → ℤ → Bool
miscounted confirmations rewind = lt_int confirmations (pos 1) || lt_int rewind confirmations

module _ (urlsplit : Text → Result Url) where
  abbrev path_of : Environment → Text
  path_of env = strip (get env "SENTINEL_STATE_PATH" (codes ".sentinel/state.sqlite3"))

  -- What the environment must hold for `s` to be its settings.
  pub record Valid (env : Environment) (s : Settings) : Type 0 where
    pub chain_id : int_setting env "CHAIN_ID" (codes "84532") ≡ ok s.chain_id
    pub confirmations : int_setting env "SENTINEL_CONFIRMATIONS" (codes "2") ≡ ok s.confirmations
    pub rewind_blocks : int_setting env "SENTINEL_REWIND_BLOCKS" (codes "2") ≡ ok s.rewind_blocks
    pub is_base_sepolia : s.chain_id ≡ pos 84532
    pub counts : Counts s.confirmations s.rewind_blocks
    pub state_path : s.state_path ≡ dir_path (path_of env)
    pub path_given : (path_of env ≢ []) × (path_of env ≢ codes ":memory:")
    pub rpc_http : IsEndpoint urlsplit env "RPC_HTTP" s.rpc_http
    pub subgraph_url : IsEndpoint urlsplit env "SUBGRAPH_URL" s.subgraph_url
    pub guardian_address : IsAddress env "GUARDIAN_ADDRESS" s.guardian_address
    pub vault_address : IsAddress env "VAULT_ADDRESS" s.vault_address

  -- The test of the path.
  abbrev is_volatile : Text → Bool
  is_volatile path = path == [] || path == codes ":memory:"
