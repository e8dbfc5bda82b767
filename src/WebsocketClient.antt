-- ===== src/WebsocketClient.antt =====
-- src/websocket_client.c: the session and the callback that libwebsockets calls. The code has one
-- client, through `g_client`, and libwebsockets is the order of the callbacks.
pub mod Endpoint
pub mod Subscription
pub mod Sending
pub mod Retry
pub mod Safe
pub mod Thread
mod Tests
use yurei_jsonrpc_client.Prelude.{
  ℕ, zero, suc, ◌+◌, ◌%◌, ◌^◌, Bool, true, false, ltb, if◌then◌else◌, Option, none, some, List, [],
  ◌∷◌, ◌++◌, length, take, Bytes, option_case, ◌>>=◌,
}
use yurei_jsonrpc_client.CString.{until_nul, codes, copy_string}
use yurei_jsonrpc_client.Config.Fields.{Config}
use yurei_jsonrpc_client.EventQueue.Ring.{EventQueue, Schedule}
use yurei_jsonrpc_client.Mentions.{build_mentions_array}
use yurei_jsonrpc_client.Parser.Json.{CJson}
use yurei_jsonrpc_client.Parser.Message.{Handled, handle_message}

-- `WsSessionData`.
pub record WsSessionData : Type 0 where
  pub outbound : Bytes
  pub outbound_len : ℕ
  pub send_pending : Bool

-- The session data of a new connection, which libwebsockets fills with zeros.
abbrev pub new_session : WsSessionData
new_session = record { outbound = []; outbound_len = 0; send_pending = false }

-- The text of the format string, for an array of programs.
abbrev pub subscription_text : Bytes → Bytes
subscription_text programs =
    codes "{\"jsonrpc\":\"2.0\",\"id\":1,\"method\":\"logsSubscribe\",\"params\":[{\"mentions\":"
    ++ (programs ++ codes "},{\"commitment\":\"confirmed\"}]}")

-- `snprintf` returns the length that its output would have had.
unfoldable pub schedule_subscription : Config → WsSessionData
schedule_subscription config =
    let text = subscription_text (build_mentions_array config 256) in
    record { outbound = copy_string 512 text; outbound_len = length text; send_pending = true }

-- `YureiWebsocketClient`, the session of its last connection, what is left of the schedule of the other threads, and the
-- texts given to `lws_write`. The flag `wsi` says that the pointer is not NULL.
pub record WsClient : Type 0 where
  pub connected : Bool
  pub wsi : Bool
  pub backoff_ms : ℕ
  pub queue : EventQueue
  pub times : Schedule
  pub session : WsSessionData
  pub sent : List Bytes

-- `enum lws_callback_reasons`, as far as the code tells them apart, with the bytes received and
-- whether `calloc` returned memory.
pub data Reason : Type 0 where
  client_established connection_error closed client_closed : Reason
  client_receive : Bool → Bytes → Reason
  client_writeable : Reason
  other : Reason

abbrev pub disconnected : WsClient → WsClient
disconnected c = record c { connected = false; wsi = false }

-- The case `LWS_CALLBACK_CLIENT_WRITEABLE`.
unfoldable pub write_outbound : WsClient → WsClient
write_outbound c =
    let s = c.session in
    let idle : WsSessionData = record s { send_pending = false } in
    if s.send_pending
    then if ltb 512 s.outbound_len
      then record c { session = idle }
      else record c { session = idle; sent = c.sent ++ take s.outbound_len s.outbound ∷ [] }
    else c

module _ (json : CJson) (config : Config) where
  -- The case `LWS_CALLBACK_CLIENT_RECEIVE`; the parser's result is not looked at.
  unfoldable pub receive_message : Bool → Bytes → WsClient → Option WsClient
  receive_message false payload c = some c
  receive_message true payload c = do
    h ← handle_message json config (until_nul payload) c.queue c.times none
    some (record c { queue = h.queue; times = h.times })

  -- `ws_callback`. `none` means that the schedule of the other threads ended.
  unfoldable pub ws_callback : Reason → WsClient → Option WsClient
  unfolding schedule_subscription write_outbound
  ws_callback client_established c = some (record c {
    connected = true;
    backoff_ms = config.ws_backoff_ms;
    session = schedule_subscription config;
  })
  ws_callback connection_error c = some (disconnected c)
  ws_callback closed c = some (disconnected c)
  ws_callback client_closed c = some (disconnected c)
  ws_callback (client_receive allocated payload) c = receive_message allocated payload c
  ws_callback client_writeable c = some (write_outbound c)
  ws_callback other c = some c

  unfoldable pub callbacks : List Reason → WsClient → Option WsClient
  callbacks [] c = some c
  callbacks (r ∷ rs) c = do c' ← ws_callback r c; callbacks rs c'
