-- ===== src/Config/Load.antt =====
-- `apply_defaults`, `apply_environment_overrides` and `yurei_config_load`. The environment is what
-- `getenv` gives, and the file at the path is an argument.
use yurei_jsonrpc_client.Prelude.{true, Option, none, some, List, [], ◌∷◌, Bytes}
use yurei_jsonrpc_client.CString.{codes}
use yurei_jsonrpc_client.Config.Fields.{Config}
use yurei_jsonrpc_client.Config.Settings.{apply_key_value}
use yurei_jsonrpc_client.Config.Files.{load_env_file}

abbrev pub apply_defaults : Config
apply_defaults = record {
  rpc_endpoint = codes "https://mainnet.helius-rpc.com";
  wss_endpoint = codes "wss://mainnet.helius-rpc.com";
  rpc_api_key = [];
  rpc_mode = codes "ws";
  poll_interval_ms = 1000;
  ws_backoff_ms = 1000;
  ws_backoff_max_ms = 60000;
  queue_capacity = 1024;
  batch_size = 20;
  rate_limit_rps = 10;
  log_color = true;
  pumpfun_program = codes "6EF8rrecthR5Dkzon8Nwu78hRvfCKubJ14M5uBEwF6P";
  raydium_program = codes "675kPX9MHTjS2zt1qfr1NYHuzeLXfQM9H24wFSUt1Mp8";
  pumpfun_table = codes "pumpfun_trades";
  raydium_table = codes "raydium_swaps";
  pg_conninfo = codes "host=127.0.0.1 port=5432 dbname=yurei user=yurei password=secret";
  log_level = codes "info";
}

abbrev pub Environment : Type 0
Environment = Bytes → Option Bytes

-- The array `keys`.
abbrev pub override_keys : List Bytes
override_keys =
    codes "YUREI_RPC_ENDPOINT"
    ∷ codes "YUREI_WSS_ENDPOINT"
    ∷ codes "YUREI_RPC_API_KEY"
    ∷ codes "YUREI_RPC_MODE"
    ∷ codes "YUREI_POLL_INTERVAL_MS"
    ∷ codes "YUREI_WS_BACKOFF_MS"
    ∷ codes "YUREI_WS_BACKOFF_MAX_MS"
    ∷ codes "YUREI_QUEUE_CAPACITY"
    ∷ codes "YUREI_BATCH_SIZE"
    ∷ codes "YUREI_RATE_LIMIT"
    ∷ codes "YUREI_LOG_COLOR"
    ∷ codes "YUREI_PUMPFUN_PROGRAM"
    ∷ codes "YUREI_RAYDIUM_PROGRAM"
    ∷ codes "YUREI_PG_CONN"
    ∷ codes "YUREI_PG_CONNINFO"
    ∷ codes "YUREI_PUMPFUN_TABLE"
    ∷ codes "YUREI_RAYDIUM_TABLE"
    ∷ codes "YUREI_LOG_LEVEL"
    ∷ []

-- The body of the loop, for what `getenv` gave.
abbrev pub override : Bytes → Option Bytes → Config → Config
override key none config = config
override key (some []) config = config
override key (some (c ∷ s)) config = apply_key_value key (c ∷ s) config

unfoldable pub override_from : Environment → List Bytes → Config → Config
override_from env [] config = config
override_from env (key ∷ keys) config = override_from env keys (override key (env key) config)

unfoldable pub apply_environment_overrides : Environment → Config → Config
unfolding override_from
apply_environment_overrides env config = override_from env override_keys config

unfoldable pub load : Option Bytes → Environment → Config
unfolding apply_environment_overrides load_env_file
load file env = apply_environment_overrides env (load_env_file file apply_defaults)
