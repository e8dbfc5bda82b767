-- ===== src/Program/Tests.antt =====
-- Runs of the program, and its theorems at concrete inputs.
use yurei_jsonrpc_client.Config.Settings.{first_match, setting_of}
use yurei_jsonrpc_client.EventQueue.Fifo.{contents}
use yurei_jsonrpc_client.Program.Pipeline.{handle_message-Stored, Stored}
use yurei_jsonrpc_client.Parser.Extract.{message_events}
use yurei_jsonrpc_client.Parser.Message.{handle_message, Handled}
use yurei_jsonrpc_client.WebsocketClient.Endpoint.{parse_endpoint}
use yurei_jsonrpc_client.WebsocketClient.Retry.{reconnect}
use yurei_jsonrpc_client.Mentions.{mentions, build_mentions_array}
use yurei_jsonrpc_client.Config.Files.{trim, read_line, apply_line, file_lines, apply_lines}
use yurei_jsonrpc_client.WebsocketClient.Subscription.{subscription}
use yurei_jsonrpc_client.EventQueue.Event.{pumpfun, blank_event}
use yurei_jsonrpc_client.DbWriter.Insert.{table_for_event}
use yurei_jsonrpc_client.WebsocketClient.Thread.{
  establish_connection, ws_round, ws_rounds, Round, ws_thread,
}
use yurei_jsonrpc_client.WebsocketClient.{
  ws_callback, callbacks, client_writeable, client_established, other, schedule_subscription,
  WsClient,
}
use yurei_jsonrpc_client.Prelude.{
  if◌then◌else◌, ◌++◌, length, replicate, arith, Bytes, List, Option, ◌≡◌, refl, true, false, none,
  some, [], ◌∷◌,
}
use yurei_jsonrpc_client.CString.{
  is_space, skip_spaces_back, skip_spaces, up_to, from, until_nul, fgets, codes, same_ignoring_case,
  to_lower,
}
use yurei_jsonrpc_client.Config.Load.{Environment, apply_defaults, load}
use yurei_jsonrpc_client.Config.Fields.{Config}
use yurei_jsonrpc_client.Parser.Sample
use yurei_jsonrpc_client.Parser.Sample.{
  empty_queue-IsValid, notification_events, notification, empty_queue, tree_json,
}
use yurei_jsonrpc_client.EventQueue.Ring
use yurei_jsonrpc_client.RateLimiter
use yurei_jsonrpc_client.Program.Start.{db_writer_start, http_poller_start, ws_client_start}
use yurei_jsonrpc_client.Program.Main.{
  limiter_init, queue_init, writer_start, ws_start, poller_start, poller_ends, queue_close,
  writer_stop, queue_destroy, limiter_destroy, Outside, same_text, parse_arguments, run_with,
  show_usage, wants_ws, wants_http, shutdown, with_poller, with_sources, main_run, metrics_logs,
}
use yurei_jsonrpc_client.Program.Print.{usage, Clock, startup_output}
use yurei_jsonrpc_client.Program.Secrets.{startup_output-public}
use yurei_jsonrpc_client.Config.Secrets.{public_part, secret_key, SamePublic}
use yurei_jsonrpc_client.Program.Order.{Ends, main_run-Ends}
use yurei_jsonrpc_client.Program.Loaded.{SendsWhole, load-SendsWhole}

two_arguments :
    parse_arguments (codes ".env") (codes "-c" ∷ codes "a" ∷ codes "--config" ∷ codes "b" ∷ [])
    ≡ run_with (codes "b")
unfolding parse_arguments same_text
two_arguments = refl

no_path : parse_arguments (codes ".env") (codes "-c" ∷ []) ≡ show_usage 1
unfolding parse_arguments same_text
no_path = refl

abbrev config : Config
config = record apply_defaults { queue_capacity = 1 }

-- The client's thread cannot be created, and the poller takes over and ends by itself.
abbrev outside : Outside
outside = record {
  now = 0;
  mutex_ready = true;
  allocated = true;
  writer_created = true;
  ws_created = false;
  curl_ready = true;
  poller_created = true;
  poller_fails = true;
}

falls_back : main_run config outside ≡ (
  0,
  limiter_init true
      ∷ queue_init true
      ∷ writer_start true
      ∷ ws_start false
      ∷ poller_start true
      ∷ poller_ends
      ∷ queue_close
      ∷ writer_stop
      ∷ queue_destroy
      ∷ limiter_destroy
      ∷ [],
)
unfolding main_run with_sources with_poller shutdown wants_ws wants_http same_ignoring_case to_lower
    ws_client_start http_poller_start db_writer_start Ring.init RateLimiter.init
falls_back = refl

main_run-Ends_example : Ends config outside (main_run config outside)
main_run-Ends_example = main_run-Ends config outside

abbrev file : Option Bytes
file = some (codes "YUREI_PUMPFUN_TABLE=t\n")

abbrev unset : Environment
unset key = none

abbrev client : WsClient
client = record {
  connected = false;
  wsi = false;
  backoff_ms = 1000;
  queue = empty_queue;
  times = [];
  session = record { outbound = []; outbound_len = 0; send_pending = false };
  sent = [];
}

-- An attempt that fails, then one that succeeds and is followed by the subscription.
abbrev rounds : List Round
rounds =
    record { connects = false; reasons = other ∷ [] }
    ∷ record { connects = true; reasons = client_established ∷ client_writeable ∷ [] }
    ∷ []

abbrev subscribed : WsClient
subscribed = record client {
  connected = true;
  wsi = true;
  session = record (schedule_subscription (load file unset)) { send_pending = false };
  sent = subscription (load file unset) ∷ [];
}

client_started : ws_client_start (load file unset) empty_queue [] false true ≡ some client
unfolding ws_client_start load apply_lines file_lines fgets apply_line until_nul from
    same_ignoring_case up_to
client_started = refl

thread_runs : ws_thread tree_json (load file unset) true rounds client ≡ some subscribed
unfolding ws_thread ws_rounds ws_round callbacks ws_callback build_mentions_array mentions reconnect
    establish_connection parse_endpoint load apply_lines file_lines fgets apply_line until_nul from
    same_ignoring_case up_to
thread_runs = refl

table_named : table_for_event pumpfun (load file unset) ≡ some (codes "t")
unfolding table_for_event load apply_lines file_lines fgets apply_line until_nul from
    same_ignoring_case up_to
table_named = refl

load-SendsWhole_example :
    SendsWhole
      (load file unset)
      7
      (record blank_event { kind = pumpfun })
      (codes "t")
      rounds
      client
      subscribed
load-SendsWhole_example =
    load-SendsWhole tree_json file unset 7 (record blank_event { kind = pumpfun }) empty_queue []
      true rounds empty_queue-IsValid table_named client_started thread_runs

twice_logged : metrics_logs 0 (59 ∷ 61 ∷ 100 ∷ 121 ∷ []) ≡ 61 ∷ 121 ∷ []
unfolding metrics_logs
twice_logged = refl

handle_message-Stored_example :
    (h : Handled) × (handle_message tree_json Sample.config
        (codes "{}")
        empty_queue
        (replicate (length (message_events tree_json Sample.config notification)) [])
        none
      ≡ some h)
    × Stored Sample.config
        (contents empty_queue ++ message_events tree_json Sample.config notification)
        h.queue
handle_message-Stored_example =
    handle_message-Stored tree_json Sample.config (codes "{}") notification empty_queue none refl
      empty_queue-IsValid refl (rw notification_events (omega arith))

-- A file with the key of the API at its end.
abbrev file_with : Bytes → Bytes
file_with key = codes "YUREI_RPC_MODE=http\nYUREI_RPC_API_KEY=" ++ key

abbrev files_with : Bytes → Bytes → Option Bytes
files_with key path = some (file_with key)

public_files :
    public_part (some (file_with (codes "k1"))) ≡ public_part (some (file_with (codes "k2")))
unfolding file_lines fgets read_line trim skip_spaces skip_spaces_back is_space up_to from until_nul
    setting_of first_match same_ignoring_case to_lower
public_files = refl

-- An environment that sets the secrets alone.
abbrev secrets_are : Bytes → Environment
secrets_are value key = if secret_key key then some value else none

secrets_are-SamePublic : (a b : Bytes) → SamePublic (secrets_are a) (secrets_are b)
secrets_are-SamePublic a b key shown = rw shown refl

abbrev clock : Clock
clock n = (codes "2025-01-02 03:04:05", n)

startup_output-public_example :
    startup_output
      (codes "yurei")
      []
      (files_with (codes "k1"))
      (secrets_are (codes "password=a"))
      clock
    ≡ startup_output
        (codes "yurei")
        []
        (files_with (codes "k2"))
        (secrets_are (codes "password=b"))
        clock
startup_output-public_example =
    startup_output-public (files_with (codes "k1")) (files_with (codes "k2"))
      (secrets_are (codes "password=a")) (secrets_are (codes "password=b")) clock (codes "yurei") []
      (λ path. public_files) (secrets_are-SamePublic (codes "password=a") (codes "password=b"))

usage_shown :
    startup_output (codes "yurei") (codes "--help" ∷ []) (files_with []) (λ key. none) clock
    ≡ ([], codes "Usage: yurei [-c path/to/.env]\n")
unfolding startup_output usage parse_arguments same_text
usage_shown = refl
