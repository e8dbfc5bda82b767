-- ===== src/Config/Fits.antt =====
-- Every configuration that can be loaded fits the fields of `YureiConfig`.
use yurei_jsonrpc_client.Prelude.{
  ℕ, ◌-◌, ◌%◌, ◌^◌, ◌<◌, Option, none, some, List, [], ◌∷◌, arith, length, length-take, Bytes,
  option_case,
}
use yurei_jsonrpc_client.CString.{copy_string, strtoul}
use yurei_jsonrpc_client.Config.Fields.{Config}
use yurei_jsonrpc_client.Config.Settings.{
  TextField, NumberField, Setting, text, number32, queue_capacity, log_color, rpc_endpoint,
  poll_interval_ms, size_of, set_text, number_of, set_number, set_numeric_uint32, set_numeric_size,
  apply_setting, apply_key_value, setting_of, strip_quotes, when_read,
}
use yurei_jsonrpc_client.Config.Files.{
  read_line, apply_line, apply_lines, file_lines, load_env_file,
}
use yurei_jsonrpc_client.Config.Load.{
  apply_defaults, Environment, override, override_keys, override_from, apply_environment_overrides,
  load,
}

-- The texts leave room for their terminators, and the numbers are in the ranges of their types.
pub record Fits (c : Config) : Type 0 where
  pub rpc_endpoint_fits : length c.rpc_endpoint < 256
  pub wss_endpoint_fits : length c.wss_endpoint < 256
  pub rpc_api_key_fits : length c.rpc_api_key < 128
  pub rpc_mode_fits : length c.rpc_mode < 16
  pub pumpfun_program_fits : length c.pumpfun_program < 64
  pub raydium_program_fits : length c.raydium_program < 64
  pub pumpfun_table_fits : length c.pumpfun_table < 64
  pub raydium_table_fits : length c.raydium_table < 64
  pub pg_conninfo_fits : length c.pg_conninfo < 512
  pub log_level_fits : length c.log_level < 16
  pub poll_interval_in : c.poll_interval_ms < 2 ^ 32
  pub ws_backoff_in : c.ws_backoff_ms < 2 ^ 32
  pub ws_backoff_max_in : c.ws_backoff_max_ms < 2 ^ 32
  pub batch_size_in : c.batch_size < 2 ^ 32
  pub rate_limit_in : c.rate_limit_rps < 2 ^ 32
  pub queue_capacity_in : c.queue_capacity < 2 ^ 64

set_numeric_uint32-lt : (s : Bytes) (n : ℕ) → n < 2 ^ 32 → set_numeric_uint32 s n < 2 ^ 32
unfolding set_numeric_uint32
set_numeric_uint32-lt [] n h = h
set_numeric_uint32-lt (c ∷ s) n h =
    elim (strtoul (c ∷ s)).1 as (λ e. when_read ((strtoul (c ∷ s)).0 % 2 ^ 32) e n < 2 ^ 32) [
      | [] ↦ omega arith
      | d ∷ e ↦ h
    ]

set_numeric_size-lt : (s : Bytes) (n : ℕ) → n < 2 ^ 64 → set_numeric_size s n < 2 ^ 64
unfolding set_numeric_size
set_numeric_size-lt [] n h = h
set_numeric_size-lt (c ∷ s) n h =
    elim (strtoul (c ∷ s)).1 as (λ e. when_read ((strtoul (c ∷ s)).0 % 2 ^ 64) e n < 2 ^ 64) [
      | [] ↦ omega arith
      | d ∷ e ↦ h
    ]

set_text-Fits :
    (f : TextField) (s : Bytes) (c : Config) → length s < size_of f → Fits c → Fits (set_text f s c)
set_text-Fits rpc_endpoint s c h v = ground arith
set_text-Fits _ s c h v = ground arith

set_number-Fits :
    (f : NumberField) (n : ℕ) (c : Config) → n < 2 ^ 32 → Fits c → Fits (set_number f n c)
set_number-Fits poll_interval_ms n c h v = ground arith
set_number-Fits _ n c h v = ground arith

size_of-positive : (f : TextField) → 0 < size_of f
size_of-positive rpc_endpoint = omega arith
size_of-positive _ = omega arith

pub number_of-lt : (f : NumberField) (c : Config) → Fits c → number_of f c < 2 ^ 32
number_of-lt poll_interval_ms c v = v.poll_interval_in
number_of-lt _ c v = ground arith

apply_setting-Fits :
    (s : Setting) (value : Bytes) (c : Config) → Fits c → Fits (apply_setting s value c)
unfolding apply_setting
apply_setting-Fits (text f) value c v =
    set_text-Fits f (copy_string (size_of f) value) c
      (omega (arith, length-take (size_of f - 1) value, size_of-positive f)) v
apply_setting-Fits (number32 f) value c v =
    set_number-Fits f (set_numeric_uint32 value (number_of f c)) c
      (set_numeric_uint32-lt value (number_of f c) (number_of-lt f c v)) v
apply_setting-Fits queue_capacity value c v =
    let n = set_numeric_size-lt value c.queue_capacity v.queue_capacity_in in ground arith
apply_setting-Fits log_color value c v = ground arith

apply_key_value-Fits :
    (key value : Bytes) (c : Config) → Fits c → Fits (apply_key_value key value c)
unfolding apply_key_value
apply_key_value-Fits key value c v =
    elim (setting_of key)
      as (λ o. Fits (option_case o c λ s. apply_setting s (strip_quotes 512 value) c)) [
        | none ↦ v
        | some s ↦ apply_setting-Fits s (strip_quotes 512 value) c v
      ]

apply_line-Fits : (line : Bytes) (c : Config) → Fits c → Fits (apply_line line c)
unfolding apply_line
apply_line-Fits line c v =
    elim (read_line line) as (λ o. Fits (option_case o c λ e. apply_key_value e.0 e.1 c)) [
      | none ↦ v
      | some (key, value) ↦ apply_key_value-Fits key value c v
    ]

apply_lines-Fits : (lines : List Bytes) (c : Config) → Fits c → Fits (apply_lines lines c)
unfolding apply_lines
apply_lines-Fits [] c v = v
apply_lines-Fits (line ∷ lines) c v =
    apply_lines-Fits lines (apply_line line c) (apply_line-Fits line c v)

load_env_file-Fits : (file : Option Bytes) (c : Config) → Fits c → Fits (load_env_file file c)
unfolding load_env_file
load_env_file-Fits none c v = v
load_env_file-Fits (some file) c v = apply_lines-Fits (file_lines (length file) file) c v

override-Fits :
    (key : Bytes) (value : Option Bytes) (c : Config) → Fits c → Fits (override key value c)
override-Fits key none c v = v
override-Fits key (some []) c v = v
override-Fits key (some (d ∷ s)) c v = apply_key_value-Fits key (d ∷ s) c v

override_from-Fits :
    (env : Environment) (keys : List Bytes) (c : Config) → Fits c → Fits (override_from env keys c)
unfolding override_from
override_from-Fits env [] c v = v
override_from-Fits env (key ∷ keys) c v =
    override_from-Fits env keys (override key (env key) c) (override-Fits key (env key) c v)

apply_defaults-Fits : Fits apply_defaults
apply_defaults-Fits = omega arith

-- Whatever the file and the environment hold, every text of the loaded configuration leaves room
-- for its terminator in its array, and every number is in the range of its type.
pub load-Fits : (file : Option Bytes) (env : Environment) → Fits (load file env)
unfolding load apply_environment_overrides
load-Fits file env =
    override_from-Fits env override_keys (load_env_file file apply_defaults)
      (load_env_file-Fits file apply_defaults apply_defaults-Fits)
