-- ===== src/WebsocketClient/Tests.antt =====
-- Runs of the WebSocket client, and its theorems at concrete inputs.
use yurei_jsonrpc_client.Config.Fields.{Config}
use yurei_jsonrpc_client.WebsocketClient.Thread.{
  establish_connection, ws_round, ws_thread-Kept, ws_rounds, Kept, ws_thread, Round,
}
use yurei_jsonrpc_client.Prelude.{none, ◌≡◌, refl, true, false, some, List, [], ◌∷◌, arith, inl}
use yurei_jsonrpc_client.Mentions.{build_mentions_array, mentions}
use yurei_jsonrpc_client.Parser.Sample.{empty_queue-IsValid, config, tree_json, empty_queue}
use yurei_jsonrpc_client.WebsocketClient.{
  WsClient, Reason, client_established, closed, client_writeable, callbacks, ws_callback,
  write_outbound, schedule_subscription,
}
use yurei_jsonrpc_client.WebsocketClient.Subscription.{subscription}
use yurei_jsonrpc_client.WebsocketClient.Sending.{Told, callbacks-Told, callbacks-subscribe}
use yurei_jsonrpc_client.WebsocketClient.Retry.{
  reconnect, fail_rounds, pauses_upto, fail_rounds-pauses,
}
use yurei_jsonrpc_client.CString.{codes, same_ignoring_case, to_lower, after_prefix}
use yurei_jsonrpc_client.WebsocketClient.Endpoint.{parse_endpoint, WsEndpoint}
use yurei_jsonrpc_client.WebsocketClient.Endpoint.Printed.{
  Plain, parse_endpoint-host, parse_endpoint-port,
}

abbrev fresh : WsClient
fresh = record {
  connected = false;
  wsi = false;
  backoff_ms = 1000;
  queue = empty_queue;
  times = [];
  session = record { outbound = []; outbound_len = 0; send_pending = false };
  sent = [];
}

-- Two connections, the second of which never becomes writeable.
abbrev reasons : List Reason
reasons =
    client_established ∷ client_writeable ∷ client_writeable ∷ closed ∷ client_established ∷ []

abbrev written : WsClient
written = record fresh {
  connected = true;
  session = schedule_subscription config;
  sent = subscription config ∷ [];
}

runs : callbacks tree_json config reasons fresh ≡ some written
unfolding callbacks ws_callback write_outbound schedule_subscription build_mentions_array mentions
runs = refl

subscribed_once : Told config 2 fresh written
subscribed_once =
    callbacks-Told tree_json config reasons fresh (omega arith) (omega arith) (inl refl) runs

abbrev with_endpoint : Config
with_endpoint = record config { wss_endpoint = codes "ws://a.xyz" }

-- An attempt that fails, a connection that is closed, and a second one.
abbrev rounds : List Round
rounds =
    record { connects = false; reasons = [] }
    ∷ record { connects = true; reasons = client_established ∷ client_writeable ∷ closed ∷ [] }
    ∷ record { connects = true; reasons = client_established ∷ [] }
    ∷ []

abbrev reached : WsClient
reached = record written { wsi = true }

thread_runs : ws_thread tree_json with_endpoint true rounds fresh ≡ some reached
unfolding ws_thread ws_rounds ws_round callbacks ws_callback write_outbound schedule_subscription
    build_mentions_array mentions reconnect establish_connection parse_endpoint same_ignoring_case
thread_runs = refl

ws_thread-Kept_example : Kept with_endpoint 2 fresh reached
ws_thread-Kept_example =
    ws_thread-Kept tree_json with_endpoint true rounds fresh (omega arith) (omega arith) (inl refl)
      empty_queue-IsValid (omega arith) thread_runs

subscribed_whole :
    (c' : WsClient) × (callbacks tree_json config (client_established ∷ client_writeable ∷ []) fresh
      ≡ some c')
    × (c'.sent ≡ subscription config ∷ [])
    × (c'.session.send_pending ≡ false)
    × (c'.connected ≡ true)
    × (c'.backoff_ms ≡ 1000)
subscribed_whole = callbacks-subscribe tree_json config fresh (omega arith) (omega arith)

doubled_pauses : (fail_rounds config 3 fresh).1 ≡ pauses_upto 1000 60000 0 3
doubled_pauses = fail_rounds-pauses config 3 fresh (omega arith) (omega arith) refl refl refl

three_pauses : pauses_upto 1000 60000 0 3 ≡ some 1000000 ∷ some 2000000 ∷ some 4000000 ∷ []
unfolding pauses_upto
three_pauses = refl

host_Plain : Plain (codes "a.xyz")
host_Plain = ground arith

abbrev read : WsEndpoint
read = record { address = codes "a.xyz"; path = codes "/v1"; port = 8900; secure = false }

bare_host :
    parse_endpoint (codes "wss://a.xyz")
    ≡ some (record { address = codes "a.xyz"; path = codes "/"; port = 443; secure = true })
bare_host =
    parse_endpoint-host true (codes "a.xyz") [] host_Plain (omega arith) (omega arith) (record {})
      (omega arith)

parse_endpoint-port_example : parse_endpoint (codes "ws://a.xyz:8900/v1") ≡ some read
parse_endpoint-port_example =
    parse_endpoint-port false (codes "a.xyz") b'8' (codes "900") (codes "/v1") host_Plain
      (omega arith) (omega arith) (omega arith) (omega arith) refl (omega arith)

-- The whole authority must not be empty.
no_host : parse_endpoint (codes "ws://:80/") ≡ none
unfolding parse_endpoint same_ignoring_case to_lower after_prefix
no_host = refl
