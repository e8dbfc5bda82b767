-- ===== src/Config/Settings.antt =====
-- The settings, their keys, and `apply_key_value` with what it calls. The chain of tests on the key is
-- `setting_of`, and the branches are `apply_setting`.
use yurei_jsonrpc_client.Prelude.{
  ℕ, ◌-◌, ◌%◌, ◌^◌, Bool, ◌&&◌, ◌||◌, ◌==◌, if◌then◌else◌, Option, none, some, List, [], ◌∷◌, take,
  Bytes, option_case,
}
use yurei_jsonrpc_client.CString.{codes, copy_string, same_ignoring_case, strtoul}
use yurei_jsonrpc_client.Config.Fields.{Config}

-- The settings that are texts, and those that are 32-bit numbers.
pub data TextField : Type 0 where
  rpc_endpoint wss_endpoint rpc_api_key rpc_mode pumpfun_program raydium_program : TextField
  pumpfun_table raydium_table pg_conninfo log_level : TextField

pub data NumberField : Type 0 where
  poll_interval_ms ws_backoff_ms ws_backoff_max_ms batch_size rate_limit_rps : NumberField

pub data Setting : Type 0 where
  text : TextField → Setting
  number32 : NumberField → Setting
  queue_capacity log_color : Setting

-- The sizes of the character arrays.
abbrev pub size_of : TextField → ℕ
size_of rpc_endpoint = 256
size_of wss_endpoint = 256
size_of rpc_api_key = 128
size_of rpc_mode = 16
size_of pumpfun_program = 64
size_of raydium_program = 64
size_of pumpfun_table = 64
size_of raydium_table = 64
size_of pg_conninfo = 512
size_of log_level = 16

abbrev pub text_of : TextField → Config → Bytes
text_of rpc_endpoint c = c.rpc_endpoint
text_of wss_endpoint c = c.wss_endpoint
text_of rpc_api_key c = c.rpc_api_key
text_of rpc_mode c = c.rpc_mode
text_of pumpfun_program c = c.pumpfun_program
text_of raydium_program c = c.raydium_program
text_of pumpfun_table c = c.pumpfun_table
text_of raydium_table c = c.raydium_table
text_of pg_conninfo c = c.pg_conninfo
text_of log_level c = c.log_level

abbrev pub set_text : TextField → Bytes → Config → Config
set_text rpc_endpoint s c = record c { rpc_endpoint = s }
set_text wss_endpoint s c = record c { wss_endpoint = s }
set_text rpc_api_key s c = record c { rpc_api_key = s }
set_text rpc_mode s c = record c { rpc_mode = s }
set_text pumpfun_program s c = record c { pumpfun_program = s }
set_text raydium_program s c = record c { raydium_program = s }
set_text pumpfun_table s c = record c { pumpfun_table = s }
set_text raydium_table s c = record c { raydium_table = s }
set_text pg_conninfo s c = record c { pg_conninfo = s }
set_text log_level s c = record c { log_level = s }

abbrev pub number_of : NumberField → Config → ℕ
number_of poll_interval_ms c = c.poll_interval_ms
number_of ws_backoff_ms c = c.ws_backoff_ms
number_of ws_backoff_max_ms c = c.ws_backoff_max_ms
number_of batch_size c = c.batch_size
number_of rate_limit_rps c = c.rate_limit_rps

abbrev pub set_number : NumberField → ℕ → Config → Config
set_number poll_interval_ms n c = record c { poll_interval_ms = n }
set_number ws_backoff_ms n c = record c { ws_backoff_ms = n }
set_number ws_backoff_max_ms n c = record c { ws_backoff_max_ms = n }
set_number batch_size n c = record c { batch_size = n }
set_number rate_limit_rps n c = record c { rate_limit_rps = n }

-- The last character of a text that has one more, and the text without it.
abbrev pub split_last : ℕ → Bytes → Bytes × ℕ
split_last c [] = ([], c)
split_last c (d ∷ s) = let (before, last) = split_last d s in (c ∷ before, last)

abbrev pub is_quote : ℕ → ℕ → Bool
is_quote first last = first == b'"' && last == b'"' || first == b'\'' && last == b'\''

-- `strip_quotes` with a buffer of `size` characters.
unfoldable pub strip_quotes : ℕ → Bytes → Bytes
strip_quotes size [] = []
strip_quotes size (c ∷ []) = c ∷ []
strip_quotes size (c ∷ d ∷ s) =
    let (middle, last) = split_last d s in
    if is_quote c last then take (size - 1) middle else c ∷ d ∷ s

abbrev pub when_read : ℕ → Bytes → ℕ → ℕ
when_read value [] field = value
when_read value (c ∷ s) field = field

-- `set_numeric_uint32` and `set_numeric_size` on the field's old value.
unfoldable pub set_numeric_uint32 : Bytes → ℕ → ℕ
set_numeric_uint32 [] field = field
set_numeric_uint32 (c ∷ s) field =
    let (parsed, end) = strtoul (c ∷ s) in when_read (parsed % 2 ^ 32) end field

unfoldable pub set_numeric_size : Bytes → ℕ → ℕ
set_numeric_size [] field = field
set_numeric_size (c ∷ s) field =
    let (parsed, end) = strtoul (c ∷ s) in when_read (parsed % 2 ^ 64) end field

-- The chain of tests on the key.
abbrev pub key_tests : List (Bytes × Setting)
key_tests =
    (codes "YUREI_RPC_ENDPOINT", text rpc_endpoint)
    ∷ (codes "YUREI_WSS_ENDPOINT", text wss_endpoint)
    ∷ (codes "YUREI_RPC_MODE", text rpc_mode)
    ∷ (codes "YUREI_POLL_INTERVAL_MS", number32 poll_interval_ms)
    ∷ (codes "YUREI_WS_BACKOFF_MS", number32 ws_backoff_ms)
    ∷ (codes "YUREI_WS_BACKOFF_MAX_MS", number32 ws_backoff_max_ms)
    ∷ (codes "YUREI_QUEUE_CAPACITY", queue_capacity)
    ∷ (codes "YUREI_BATCH_SIZE", number32 batch_size)
    ∷ (codes "YUREI_PUMPFUN_PROGRAM", text pumpfun_program)
    ∷ (codes "YUREI_RAYDIUM_PROGRAM", text raydium_program)
    ∷ (codes "YUREI_PUMPFUN_TABLE", text pumpfun_table)
    ∷ (codes "YUREI_RAYDIUM_TABLE", text raydium_table)
    ∷ (codes "YUREI_PG_CONN", text pg_conninfo)
    ∷ (codes "YUREI_PG_CONNINFO", text pg_conninfo)
    ∷ (codes "YUREI_LOG_LEVEL", text log_level)
    ∷ (codes "YUREI_RPC_API_KEY", text rpc_api_key)
    ∷ (codes "YUREI_RATE_LIMIT", number32 rate_limit_rps)
    ∷ (codes "YUREI_LOG_COLOR", log_color)
    ∷ []

unfoldable pub first_match : Bytes → List (Bytes × Setting) → Option Setting
first_match key [] = none
first_match key ((name, s) ∷ tests) =
    if same_ignoring_case key name then some s else first_match key tests

unfoldable pub setting_of : Bytes → Option Setting
unfolding first_match
setting_of key = first_match key key_tests

abbrev pub means_yes : Bytes → Bool
means_yes s =
    same_ignoring_case s (codes "1")
    || same_ignoring_case s (codes "true")
    || same_ignoring_case s (codes "yes")

unfoldable pub apply_setting : Setting → Bytes → Config → Config
apply_setting (text f) s c = set_text f (copy_string (size_of f) s) c
apply_setting (number32 f) s c = set_number f (set_numeric_uint32 s (number_of f c)) c
apply_setting queue_capacity s c = record c { queue_capacity = set_numeric_size s c.queue_capacity }
apply_setting log_color s c = record c { log_color = means_yes s }

unfoldable pub apply_key_value : Bytes → Bytes → Config → Config
unfolding setting_of apply_setting strip_quotes
apply_key_value key value c =
    option_case (setting_of key) c λ s. apply_setting s (strip_quotes 512 value) c
