-- ===== src/Logging.antt =====
-- src/logging.c, include/logging.h, and `configure_log_level` of src/config.c. The logger is the two
-- global variables; a call gives what it writes to the standard error. The local time as `strftime`
-- writes it and the message as `vfprintf` writes it are arguments. The mutex makes a call one step.
pub mod Filter
pub mod Plain
mod Tests
use yurei_jsonrpc_client.Prelude.{
  ℕ, zero, suc, ◌+◌, ◌-◌, ◌/◌, Bool, true, false, ltb, if◌then◌else◌, Option, none, some, List, [],
  ◌∷◌, ◌++◌, length, replicate, Bytes,
}
use yurei_jsonrpc_client.CString.{codes, same_ignoring_case, print_u64}
use yurei_jsonrpc_client.Config.Fields.{Config}

pub data LogLevel : Type 0 where
  trace debug info warn error : LogLevel

-- The number of a level.
abbrev pub rank : LogLevel → ℕ
rank trace = 0
rank debug = 1
rank info = 2
rank warn = 3
rank error = 4

pub record Logger : Type 0 where
  pub level : LogLevel
  pub color_enabled : Bool

-- `g_level` and `g_color_enabled` at the start.
abbrev pub initial : Logger
initial = record { level = info; color_enabled = true }

abbrev pub set_level : LogLevel → Logger → Logger
set_level level logger = record logger { level = level }

abbrev pub set_color : Bool → Logger → Logger
set_color enabled logger = record logger { color_enabled = enabled }

abbrev pub level_to_string : LogLevel → Bytes
level_to_string trace = codes "TRACE"
level_to_string debug = codes "DEBUG"
level_to_string info = codes "INFO "
level_to_string warn = codes "WARN "
level_to_string error = codes "ERROR"

-- An escape sequence `\033[...m`.
abbrev pub ansi : Bytes → Bytes
ansi s = 27 ∷ b'[' ∷ s

abbrev pub level_color : LogLevel → Bytes
level_color trace = ansi (codes "90m")
level_color debug = ansi (codes "36m")
level_color info = ansi (codes "32m")
level_color warn = ansi (codes "33m")
level_color error = ansi (codes "31m") ++ ansi (codes "1m")

unfoldable pub level_to_color : Logger → LogLevel → Bytes
level_to_color logger level = if logger.color_enabled then level_color level else []

-- `%06ld`
abbrev pub pad_six : Bytes → Bytes
pad_six s = replicate (6 - length s) b'0' ++ s

-- The line that is written.
unfoldable pub log_line : Logger → LogLevel → Bytes → ℕ → Bytes → Bytes
unfolding level_to_color
log_line logger level time nanos message =
    level_to_color logger level
    ++ (time
        ++ (b'.'
            ∷ (pad_six (print_u64 (nanos / 1000))
                ++ (codes " ["
                    ++ (level_to_string level
                        ++ (b']'
                            ∷ ((if logger.color_enabled then ansi (codes "0m") else [])
                                ++ (b' ' ∷ (message ++ b'\n' ∷ [])))))))))

-- `yurei_log`; `none` is a message below the level.
unfoldable pub yurei_log : Logger → LogLevel → Bytes → ℕ → Bytes → Option Bytes
unfolding log_line
yurei_log logger level time nanos message =
    if ltb (rank level) (rank logger.level)
    then none
    else some (log_line logger level time nanos message)

-- The chain of tests on the level's name.
unfoldable pub level_named : Bytes → LogLevel
level_named s =
    if same_ignoring_case s (codes "trace")
    then trace
    else if same_ignoring_case s (codes "debug")
    then debug
    else if same_ignoring_case s (codes "info")
    then info
    else if same_ignoring_case s (codes "warn")
    then warn
    else error

unfoldable pub configure_log_level : Config → Logger → Logger
unfolding level_named
configure_log_level config logger =
    set_level (level_named config.log_level) (set_color config.log_color logger)
