-- ===== src/Sentinel/Tests.antt =====
-- The settings at a concrete environment.
use nexguard_sentinel.Prelude.{
  none, some, ◌==◌, string_eq, nats_eq, nat_eq, if◌then◌else◌, pos, ◌≡◌, refl,
}
use nexguard_sentinel.Python.Exec.{Result, ok}
use nexguard_sentinel.Python.Text.{Text, codes, strip, lower}
use nexguard_sentinel.Python.Number.{int, int_signed, magnitude, digits, skip_prefix}
use nexguard_sentinel.Sentinel.{
  Environment, Url, Settings, required, endpoint, address, int_setting, from_env,
}
use nexguard_sentinel.Sentinel.Valid.{Valid}
use nexguard_sentinel.Python.Pathlib.{dir_path, parts, path_text}
use nexguard_sentinel.Python.Words

-- Every URL is taken for an HTTPS one of the host `node`.
abbrev split : Text → Result Url
split t = ok (record { scheme = codes "https"; hostname = some (codes "node"); username = none })

abbrev environment : Environment
environment name =
    if name == "RPC_HTTP"
    then some (codes " https://node/rpc ")
    else if name == "SUBGRAPH_URL"
    then some (codes "https://node/graph")
    else if name == "GUARDIAN_ADDRESS"
    then some (codes "0X00000000000000000000000000000000000000AB")
    else if name == "VAULT_ADDRESS"
    then some (codes "0x00000000000000000000000000000000000000cd")
    else if name == "SENTINEL_REWIND_BLOCKS"
    then some (codes " 1_0")
    else none

abbrev settings : Settings
settings = record {
  rpc_http = codes "https://node/rpc";
  subgraph_url = codes "https://node/graph";
  guardian_address = codes "0x00000000000000000000000000000000000000ab";
  vault_address = codes "0x00000000000000000000000000000000000000cd";
  state_path = codes ".sentinel/state.sqlite3";
  chain_id = pos 84532;
  confirmations = pos 2;
  rewind_blocks = pos 10;
}

from_env-settings : from_env split environment ≡ ok settings
unfolding from_env int_setting int int_signed strip string_eq magnitude digits skip_prefix nats_eq
    endpoint required address lower dir_path Words.split parts path_text Words.join
from_env-settings = refl

-- A text that passes the test of the path and still names SQLite's database in memory.
memory_path : dir_path (codes "./:memory:") ≡ codes ":memory:"
unfolding dir_path Words.split parts path_text Words.join nats_eq nat_eq
memory_path = refl
