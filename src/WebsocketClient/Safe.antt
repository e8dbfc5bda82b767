-- ===== src/WebsocketClient/Safe.antt =====
-- What attempts to connect and callbacks keep: a valid queue, and a backoff within its bound.
use yurei_jsonrpc_client.Parser.Bounds.{handle_message-IsValid}
use yurei_jsonrpc_client.CString.{until_nul}
use yurei_jsonrpc_client.Parser.Message.{handle_message}
use yurei_jsonrpc_client.Prelude.{
  true, false, [], none, ◌∷◌, bind_some, eq_of_some, subst, some, List, ◌≡◌, Bytes, max, Bool,
  arith, ℕ, ◌≤◌,
}
use yurei_jsonrpc_client.Parser.Json.{CJson}
use yurei_jsonrpc_client.WebsocketClient.Retry.{reconnect, next_backoff_ms}
use yurei_jsonrpc_client.Config.Fields.{Config}
use yurei_jsonrpc_client.EventQueue.Invariant.{IsValid}
use yurei_jsonrpc_client.WebsocketClient.{
  callbacks, Reason, receive_message, write_outbound, WsClient, client_established,
  connection_error, closed, client_closed, client_receive, client_writeable, other, ws_callback,
}

abbrev pub IsBounded : Config → WsClient → Type 0
IsBounded config c = c.backoff_ms ≤ max config.ws_backoff_ms config.ws_backoff_max_ms

-- The queue and the backoff alone.
pub record Safe (config : Config) (c : WsClient) : Type 0 where
  pub valid : IsValid c.queue
  pub backoff : IsBounded config c

next_backoff_ms-le : (most n b : ℕ) → most ≤ b → n ≤ b → next_backoff_ms most n ≤ b
unfolding next_backoff_ms
next_backoff_ms-le most n b h k = ground arith

write_outbound-Safe :
    (config : Config) (c : WsClient) → Safe config c → Safe config (write_outbound c)
unfolding write_outbound
write_outbound-Safe config c v = record {
  valid = ground (arith, v.valid);
  backoff = ground (arith, v.backoff);
}

-- An attempt to connect sends nothing.
pub reconnect-Safe :
    (config : Config) (succeeds : Bool) (c : WsClient)
    → Safe config c
    → Safe config (reconnect config succeeds c).0
unfolding reconnect
reconnect-Safe config succeeds c v =
    let step =
      next_backoff_ms-le config.ws_backoff_max_ms c.backoff_ms
        (max config.ws_backoff_ms config.ws_backoff_max_ms) (omega arith) v.backoff in
    record { valid = ground (arith, v.valid); backoff = ground (arith, v.backoff, step) }

module _ (json : CJson) (config : Config) where
  receive_message-Safe :
      (allocated : Bool) (payload : Bytes) (c : WsClient) {c' : WsClient}
      → Safe config c
      → receive_message json config allocated payload c ≡ some c'
      → Safe config c'
  unfolding receive_message
  receive_message-Safe false payload c v r = subst (Safe config) (eq_of_some r) v
  receive_message-Safe true payload c v r =
      let (h, handled, rest) =
        bind_some (handle_message json config (until_nul payload) c.queue c.times none) r in
      subst (Safe config) (eq_of_some rest) (record {
        valid =
            handle_message-IsValid json config (until_nul payload) c.queue c.times none v.valid
              handled;
        backoff = v.backoff;
      })

  ws_callback-Safe :
      (r : Reason) (c : WsClient) {c' : WsClient}
      → Safe config c
      → ws_callback json config r c ≡ some c'
      → Safe config c'
  unfolding ws_callback
  ws_callback-Safe client_established c v r =
      subst (Safe config) (eq_of_some r) (record { valid = v.valid; backoff = omega arith })
  ws_callback-Safe connection_error c v r =
      subst (Safe config) (eq_of_some r) (record { valid = v.valid; backoff = v.backoff })
  ws_callback-Safe closed c v r =
      subst (Safe config) (eq_of_some r) (record { valid = v.valid; backoff = v.backoff })
  ws_callback-Safe client_closed c v r =
      subst (Safe config) (eq_of_some r) (record { valid = v.valid; backoff = v.backoff })
  ws_callback-Safe (client_receive allocated payload) c v r =
      receive_message-Safe allocated payload c v r
  ws_callback-Safe client_writeable c v r =
      subst (Safe config) (eq_of_some r) (write_outbound-Safe config c v)
  ws_callback-Safe other c v r = subst (Safe config) (eq_of_some r) v

  pub callbacks-Safe :
      (rs : List Reason) (c : WsClient) {c' : WsClient}
      → Safe config c
      → callbacks json config rs c ≡ some c'
      → Safe config c'
  unfolding callbacks
  callbacks-Safe [] c v r = subst (Safe config) (eq_of_some r) v
  callbacks-Safe (r ∷ rs) c v returned =
      let (c1, ok, rest) = bind_some (ws_callback json config r c) returned in
      callbacks-Safe rs c1 (ws_callback-Safe r c v ok) rest
