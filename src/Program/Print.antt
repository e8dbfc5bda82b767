-- ===== src/Program/Print.antt =====
-- What src/main.c prints before it starts a thread: the usage, the version, and the log up to the
-- banner. The clock gives the local time and the nanoseconds of each line of the log.
use yurei_jsonrpc_client.Prelude.{
  ℕ, zero, suc, if◌then◌else◌, Option, [], List, ◌∷◌, ◌++◌, option_case, Bytes,
}
use yurei_jsonrpc_client.CString.{codes, print_u64}
use yurei_jsonrpc_client.Config.Fields.{Config}
use yurei_jsonrpc_client.Config.Load.{Environment, load}
use yurei_jsonrpc_client.Config.Print.{config_print}
use yurei_jsonrpc_client.Logging.{LogLevel, info, Logger, initial, yurei_log, configure_log_level}
use yurei_jsonrpc_client.Program.Main.{
  Arguments, parse_arguments, run_with, show_usage, show_version,
}

-- `YUREI_VERSION`
abbrev pub version : Bytes
version = codes "1.1.0"

unfoldable pub usage : Bytes → Bytes
usage prog = codes "Usage: " ++ (prog ++ (codes " [-c path/to/.env]" ++ b'\n' ∷ []))

-- The bytes in UTF-8 of the character of the block of box drawings with a third byte.
abbrev pub box : ℕ → Bytes
box third = 226 ∷ 149 ∷ third ∷ []

abbrev pub repeated : ℕ → Bytes → Bytes
repeated zero s = []
repeated (suc n) s = s ++ repeated n s

-- A line of the banner between its left and right ends.
abbrev pub side : Bytes → Bytes
side s = box 145 ++ (s ++ box 145)

unfoldable pub startup_banner : Config → List Bytes
startup_banner config =
    (box 148 ++ (repeated 60 (box 144) ++ box 151))
    ∷ side
        (codes "             PROJECT YUREI JSON-RPC CLIENT v" ++ (version ++ codes "            "))
    ∷ side (codes "        High-performance Solana data ingestion engine       ")
    ∷ (box 154 ++ (repeated 60 (box 144) ++ box 157))
    ∷ (codes "RPC endpoint: " ++ config.rpc_endpoint)
    ∷ (codes "WSS endpoint: " ++ config.wss_endpoint)
    ∷ (codes "Mode: "
        ++ (config.rpc_mode
            ++ (codes " | Batch size: "
                ++ (print_u64 config.batch_size
                    ++ (codes " | Rate limit: "
                        ++ (print_u64 config.rate_limit_rps ++ codes " rps"))))))
    ∷ (codes "Queue capacity: "
        ++ (print_u64 config.queue_capacity
            ++ (codes " | Log color: "
                ++ (if config.log_color then codes "enabled" else codes "disabled"))))
    ∷ []

abbrev pub Clock : Type 0
Clock = ℕ → Bytes × ℕ

-- The lines that messages of a level make in the log, from a line's number on.
unfoldable pub log_all : Logger → LogLevel → Clock → ℕ → List Bytes → Bytes
log_all logger level clock n [] = []
log_all logger level clock n (message ∷ messages) =
    let (time, nanos) = clock n in
    option_case (yurei_log logger level time nanos message) [] (λ line. line)
    ++ log_all logger level clock (suc n) messages

unfoldable pub startup_log : Clock → Config → Bytes
startup_log clock config =
    log_all (configure_log_level config initial) info clock 0
      (config_print config ++ startup_banner config)

abbrev pub output_for :
    Bytes → (Bytes → Option Bytes) → Environment → Clock → Arguments → Bytes × Bytes
output_for prog files env clock (run_with path) = ([], startup_log clock (load (files path) env))
output_for prog files env clock (show_usage code) = ([], usage prog)
output_for prog files env clock show_version =
    (codes "yurei-jsonrpc-client v" ++ (version ++ b'\n' ∷ []), [])

-- What is on the standard output and on the standard error when the threads are to be started, or
-- when the program has ended.
unfoldable pub startup_output :
    Bytes → List Bytes → (Bytes → Option Bytes) → Environment → Clock → Bytes × Bytes
startup_output prog arguments files env clock =
    output_for prog files env clock (parse_arguments (codes ".env") arguments)
