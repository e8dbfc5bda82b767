-- ===== src/Logging/Tests.antt =====
-- Lines of the logger, and its theorems at concrete inputs.
use yurei_jsonrpc_client.Prelude.{◌≡◌, ◌≢◌, ◌↔◌, ◌≤◌, refl, true, false, none, some, arith, Bytes}
use yurei_jsonrpc_client.CString.{codes, print_u64, same_ignoring_case, to_lower}
use yurei_jsonrpc_client.Config.Fields.{Config}
use yurei_jsonrpc_client.Config.Load.{apply_defaults}
use yurei_jsonrpc_client.Logging.{
  info, warn, error, rank, Logger, initial, log_line, yurei_log, configure_log_level,
  level_to_color,
}
use yurei_jsonrpc_client.Logging.Filter.{configure_log_level-filters}
use yurei_jsonrpc_client.Logging.Plain.{Plain, yurei_log-Plain}

abbrev time : Bytes
time = codes "2025-01-02 03:04:05"

abbrev colorless : Logger
colorless = record initial { color_enabled = false }

abbrev line : Bytes
line = codes "2025-01-02 03:04:05.001234 [WARN ] low\n"

written : yurei_log colorless warn time 1234567 (codes "low") ≡ some line
unfolding yurei_log log_line level_to_color print_u64
written = refl

no_escape : Plain line
no_escape =
    yurei_log-Plain colorless warn time 1234567 (codes "low") refl (omega arith) (omega arith)
      written

abbrev noisy : Config
noisy = record apply_defaults { log_level = codes "WARN" }

named : same_ignoring_case (codes "WARN") (codes "warn") ≡ true
unfolding same_ignoring_case to_lower
named = refl

configure_log_level-filters_example :
    ((yurei_log (configure_log_level noisy initial) info time 0 (codes "on") ≢ none)
      ↔ (rank warn ≤ rank info))
    × (yurei_log (configure_log_level noisy initial) error time 0 (codes "on") ≢ none)
configure_log_level-filters_example =
    configure_log_level-filters noisy initial warn info time 0 (codes "on") named
