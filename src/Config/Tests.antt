-- ===== src/Config/Tests.antt =====
-- Configurations that are loaded, and the theorems at concrete inputs.
use yurei_jsonrpc_client.Prelude.{
  inl, ◌∷◌, ◌≡◌, refl, false, ◌≤◌, none, some, [], ◌++◌, arith, length, Bytes, All, if◌then◌else◌,
}
use yurei_jsonrpc_client.CString.{
  codes, skip_spaces, skip_spaces_back, is_space, strtoul, same_ignoring_case, to_lower, fgets,
  up_to, from, until_nul,
}
use yurei_jsonrpc_client.Config.Settings.{
  TextField, rpc_endpoint, rpc_mode, text_of, strip_quotes, set_numeric_uint32, setting_of,
  apply_setting, apply_key_value,
}
use yurei_jsonrpc_client.Config.Files.{
  file_lines, load_env_file, read_line, trim, apply_line, apply_lines,
}
use yurei_jsonrpc_client.Config.Load.{apply_defaults, Environment, load}
use yurei_jsonrpc_client.Config.Fits.{Fits, load-Fits}
use yurei_jsonrpc_client.Config.Numbers.{set_numeric_uint32-Digits}
use yurei_jsonrpc_client.Config.Ignored.{file_of, load_env_file-IsIgnored}
use yurei_jsonrpc_client.Config.Lines.{joined_lines, file_lines-joined}
use yurei_jsonrpc_client.Config.Entries.{IsValue}
use yurei_jsonrpc_client.Config.Texts.{from_environment, load-from_environment}
use yurei_jsonrpc_client.Config.Printed.{IsPrintable, print_config, load_env_file-print_config}

-- A comment, a quoted value with spaces around it, a key in lower case, and a number that is none.
abbrev file : Bytes
file =
    codes "# mode\n"
    ++ (codes " yurei_rpc_mode = \"http\" \n"
        ++ (codes "YUREI_BATCH_SIZE=7\n" ++ codes "YUREI_RATE_LIMIT=8x"))

-- One variable is set, and one is empty.
env : Environment
env key =
    if same_ignoring_case key (codes "YUREI_PUMPFUN_TABLE")
    then some (codes "trades")
    else if same_ignoring_case key (codes "YUREI_RPC_MODE")
    then some []
    else none

four_lines : length (file_lines (length file) file) ≡ 4
unfolding file_lines fgets
four_lines = refl

file_loaded :
    load_env_file (some file) apply_defaults
    ≡ record apply_defaults { rpc_mode = codes "http"; batch_size = 7 }
unfolding load_env_file file_lines fgets apply_lines apply_line read_line until_nul trim skip_spaces
    skip_spaces_back is_space up_to from apply_key_value setting_of same_ignoring_case to_lower
    strip_quotes apply_setting set_numeric_uint32 strtoul
file_loaded = refl

negative_wraps : set_numeric_uint32 (codes "-1") 10 ≡ 4294967295
unfolding set_numeric_uint32 strtoul skip_spaces is_space
negative_wraps = refl

no_limit : set_numeric_uint32 (codes "4294967296") 10 ≡ 0
unfolding set_numeric_uint32 strtoul skip_spaces is_space
no_limit = refl

load-Fits_example : Fits (load (some file) env)
load-Fits_example = load-Fits (some file) env

load-from_environment_example :
    text_of rpc_mode (load (some file) env)
    ≡ from_environment rpc_mode env (text_of rpc_mode (load_env_file (some file) apply_defaults))
load-from_environment_example = load-from_environment rpc_mode (some file) env

file_lines_whole :
    (joined_lines (file_lines (length file) file) ≡ file)
    × All (λ l. length l ≤ 511) (file_lines (length file) file)
file_lines_whole = file_lines-joined file

set_numeric_uint32-Digits_example : set_numeric_uint32 (codes "8x") 10 ≡ 10
set_numeric_uint32-Digits_example =
    set_numeric_uint32-Digits b'8' [] (codes "x") 10 (omega arith) refl

default_IsValue : (f : TextField) → IsValue (text_of f apply_defaults)
unfolding skip_spaces skip_spaces_back is_space
default_IsValue rpc_endpoint = record { starts = refl; ends = refl; chars = omega arith }
default_IsValue _ = record { starts = refl; ends = refl; chars = omega arith }

default_unquoted :
    (f : TextField) → strip_quotes 512 (text_of f apply_defaults) ≡ text_of f apply_defaults
unfolding strip_quotes
default_unquoted rpc_endpoint = refl
default_unquoted _ = refl

apply_defaults-IsPrintable : IsPrintable apply_defaults
apply_defaults-IsPrintable = record {
  values = default_IsValue;
  unquoted = default_unquoted;
  conninfo_short = omega arith;
}

-- The file of the defaults, over another configuration.
load_env_file-print_config_example :
    load_env_file
      (some (print_config apply_defaults))
      (record apply_defaults { batch_size = 7; log_color = false })
    ≡ apply_defaults
load_env_file-print_config_example =
    load_env_file-print_config apply_defaults
      (record apply_defaults { batch_size = 7; log_color = false }) (omega arith)
      apply_defaults-IsPrintable

-- A comment between two settings.
load_env_file-IsIgnored_example :
    load_env_file
      (some
        (file_of (codes "YUREI_BATCH_SIZE=7" ∷ codes "  # YUREI_BATCH_SIZE=9" ∷ codes "A=1" ∷ [])))
      apply_defaults
    ≡ load_env_file (some (file_of (codes "YUREI_BATCH_SIZE=7" ∷ codes "A=1" ∷ []))) apply_defaults
load_env_file-IsIgnored_example =
    load_env_file-IsIgnored (codes "YUREI_BATCH_SIZE=7" ∷ []) (codes "A=1" ∷ [])
      (codes "  # YUREI_BATCH_SIZE=9") apply_defaults (omega arith)
      (inl (codes "  ", codes " YUREI_BATCH_SIZE=9", refl, unfold is_space in (refl, (refl, tt))))
