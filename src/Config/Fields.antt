-- ===== src/Config/Fields.antt =====
-- `YureiConfig` of include/config.h. A character array is the bytes before its terminator.
use yurei_jsonrpc_client.Prelude.{ℕ, Bool, Bytes}

pub record Config : Type 0 where
  pub rpc_endpoint : Bytes
  pub wss_endpoint : Bytes
  pub rpc_api_key : Bytes
  pub rpc_mode : Bytes
  pub poll_interval_ms : ℕ
  pub ws_backoff_ms : ℕ
  pub ws_backoff_max_ms : ℕ
  pub queue_capacity : ℕ
  pub batch_size : ℕ
  pub rate_limit_rps : ℕ
  pub log_color : Bool
  pub pumpfun_program : Bytes
  pub raydium_program : Bytes
  pub pumpfun_table : Bytes
  pub raydium_table : Bytes
  pub pg_conninfo : Bytes
  pub log_level : Bytes
