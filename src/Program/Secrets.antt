-- ===== src/Program/Secrets.antt =====
-- What the program prints at its start does not depend on the secrets of the configuration.
use yurei_jsonrpc_client.Prelude.{◌∙◌, ◌≡◌, refl, sym, ap, Option, List, [], Bytes}
use yurei_jsonrpc_client.CString.{codes}
use yurei_jsonrpc_client.Config.Fields.{Config}
use yurei_jsonrpc_client.Config.Load.{Environment, load}
use yurei_jsonrpc_client.Config.Print.{config_print}
use yurei_jsonrpc_client.Logging.{configure_log_level}
use yurei_jsonrpc_client.Program.Main.{
  Arguments, parse_arguments, run_with, show_usage, show_version,
}
use yurei_jsonrpc_client.Program.Print.{
  Clock, startup_banner, startup_log, output_for, startup_output,
}
use yurei_jsonrpc_client.Config.Secrets.{public_part, SamePublic, hidden, hidden-load}

startup_log-hidden :
    (clock : Clock) (c : Config) → startup_log clock c ≡ startup_log clock (hidden c)
unfolding startup_log config_print startup_banner configure_log_level hidden
startup_log-hidden clock c = refl

module _ (files files' : Bytes → Option Bytes) (env env' : Environment) (clock : Clock) where
  output_for-public :
      (prog : Bytes) (a : Arguments)
      → ((path : Bytes) → public_part (files path) ≡ public_part (files' path))
      → SamePublic env env'
      → output_for prog files env clock a ≡ output_for prog files' env' clock a
  output_for-public prog (run_with path) lines same =
      let c = load (files path) env in
      let d = load (files' path) env' in
      ap (λ (out : Bytes). ([], out))
        (startup_log-hidden clock c
          ∙ ap (startup_log clock)
              (hidden-load (files path) (files' path) env env' (lines path) same)
          ∙ sym (startup_log-hidden clock d))
  output_for-public prog (show_usage code) lines same = refl
  output_for-public prog show_version lines same = refl

  -- With files that have the same lines but for those that set the API key or the connection to
  -- the database, and with environments whose other variables are the same, the program prints the
  -- same up to the banner, on the standard output and on the standard error, whatever its
  -- arguments are.
  pub startup_output-public :
      (prog : Bytes) (arguments : List Bytes)
      → ((path : Bytes) → public_part (files path) ≡ public_part (files' path))
      → SamePublic env env'
      → startup_output prog arguments files env clock
        ≡ startup_output prog arguments files' env' clock
  unfolding startup_output
  startup_output-public prog arguments lines same =
      output_for-public prog (parse_arguments (codes ".env") arguments) lines same
