-- ===== src/WebsocketClient/Thread.antt =====
-- `establish_connection` and `ws_thread`: the rounds of the thread, each with an attempt to connect if
-- there is no connection, and the callbacks of one call of `lws_service`.
use yurei_jsonrpc_client.WebsocketClient.Safe.{reconnect-Safe, callbacks-Safe, Safe}
use yurei_jsonrpc_client.Prelude.{
  inr, inl, Bool-cases, ◌∙◌, not, ◌&&◌, ℕ, ◌+◌, ◌≤◌, ◌<◌, ◌≡◌, refl, sym, append-nil, max, Bool,
  true, false, Option, none, some, List, [], ◌∷◌, arith, length, subst, eq_of_some, bind_some,
  option_case, ◌>>=◌,
}
use yurei_jsonrpc_client.Config.Fields.{Config}
use yurei_jsonrpc_client.EventQueue.Invariant.{IsValid}
use yurei_jsonrpc_client.Parser.Json.{CJson}
use yurei_jsonrpc_client.WebsocketClient.{new_session, WsClient, Reason, callbacks}
use yurei_jsonrpc_client.WebsocketClient.Endpoint.{WsEndpoint, parse_endpoint}
use yurei_jsonrpc_client.WebsocketClient.Sending.{
  Prepared, connections, Told, Told-quiet, Told-trans, callbacks-Told,
}
use yurei_jsonrpc_client.WebsocketClient.Retry.{reconnect}

-- What `establish_connection` asks of libwebsockets, if anything, and whether it succeeds; the flag is
-- the answer. What happens to `wsi` is in `reconnect`.
unfoldable pub establish_connection : Config → Bool → Option WsEndpoint × Bool
establish_connection config connects =
    option_case (parse_endpoint config.wss_endpoint) (none, false)
      λ endpoint. (some endpoint, connects)

-- A round in which `running` was read as true: the answer of libwebsockets, and the callbacks.
pub record Round : Type 0 where
  pub connects : Bool
  pub reasons : List Reason

abbrev pub total_connections : List Round → ℕ
total_connections [] = 0
total_connections (r ∷ rs) = connections r.reasons + total_connections rs

module _ (json : CJson) (config : Config) where
  unfoldable pub ws_round : Round → WsClient → Option WsClient
  ws_round r c =
      callbacks json config r.reasons
        (reconnect config (establish_connection config r.connects).1 c).0

  unfoldable pub ws_rounds : List Round → WsClient → Option WsClient
  ws_rounds [] c = some c
  ws_rounds (r ∷ rs) c = do c' ← ws_round r c; ws_rounds rs c'

  -- `ws_thread`; the flag says whether there is a context.
  unfoldable pub ws_thread : Bool → List Round → WsClient → Option WsClient
  ws_thread false rs c = some c
  ws_thread true rs c = ws_rounds rs c

-- What the thread keeps: the rule of what it sends, a valid queue, and the bound of the backoff.
pub record Kept (config : Config) (n : ℕ) (c c' : WsClient) : Type 0 where
  pub told : Told config n c c'
  pub valid : IsValid c'.queue
  pub backoff : c'.backoff_ms ≤ max config.ws_backoff_ms config.ws_backoff_max_ms

reconnect-Told :
    (config : Config) (succeeds : Bool) (c : WsClient)
    → Prepared config c.session
    → Told config 0 c (reconnect config succeeds c).0
unfolding reconnect
reconnect-Told config succeeds c p =
    let r : WsClient = (reconnect config succeeds c).0 in
    let same_sent : r.sent ≡ c.sent = ground arith in
    elim (Bool-cases (not c.wsi && not c.connected && succeeds)) [
      | inl new ↦
          let fresh : r.session ≡ new_session = ground arith in
          record {
            count = 0;
            sent_is = same_sent ∙ sym (append-nil c.sent);
            count_le = rw fresh (omega arith);
            prepared = inl (rw fresh refl);
          }
      | inr quiet ↦ Told-quiet config c r p same_sent (ground arith)
    ]

module _ (json : CJson) (config : Config) where
  ws_round-Kept :
      (r : Round) (c : WsClient) {c' : WsClient}
      → length config.pumpfun_program < 64
      → length config.raydium_program < 64
      → Prepared config c.session
      → Safe config c
      → ws_round json config r c ≡ some c'
      → Told config (connections r.reasons) c c' × Safe config c'
  unfolding ws_round
  ws_round-Kept r c {c'} hp hr p v returned =
      let succeeds = (establish_connection config r.connects).1 in
      let c1 : WsClient = (reconnect config succeeds c).0 in
      let a = reconnect-Told config succeeds c p in
      let b = callbacks-Told json config r.reasons c1 hp hr a.prepared returned in
      let none_more : 0 + connections r.reasons ≡ connections r.reasons = omega arith in
      (
        subst (λ (n : ℕ). Told config n c c') none_more
            (Told-trans config c c1 c' {m = 0} {n = connections r.reasons} a b),
        callbacks-Safe json config r.reasons c1 (reconnect-Safe config succeeds c v) returned,
      )

  ws_rounds-Kept :
      (rs : List Round) (c : WsClient) {c' : WsClient}
      → length config.pumpfun_program < 64
      → length config.raydium_program < 64
      → Prepared config c.session
      → Safe config c
      → ws_rounds json config rs c ≡ some c'
      → Told config (total_connections rs) c c' × Safe config c'
  unfolding ws_rounds
  ws_rounds-Kept [] c hp hr p v r =
      subst (λ (c' : WsClient). Told config 0 c c' × Safe config c') (eq_of_some r)
        (Told-quiet config c c p refl refl, v)
  ws_rounds-Kept (r ∷ rs) c {c'} hp hr p v returned =
      let (c1, ok, rest) = bind_some (ws_round json config r c) returned in
      let (a, va) = ws_round-Kept r c hp hr p v ok in
      let (b, vb) = ws_rounds-Kept rs c1 hp hr a.prepared va rest in
      (Told-trans config c c1 c' {m = connections r.reasons} {n = total_connections rs} a b, vb)

  -- With program ids that fit their arrays, from a session with nothing to send or the whole
  -- subscription, a valid queue and a backoff that is not above the larger of the first and the
  -- most: if the thread returns, whatever connects and whichever callbacks come, all that was sent
  -- is the whole subscription, at most once for each connection established and once for what was
  -- pending before; the queue is valid, and the backoff within the same bound.
  pub ws_thread-Kept :
      (has_context : Bool) (rs : List Round) (c : WsClient) {c' : WsClient}
      → length config.pumpfun_program < 64
      → length config.raydium_program < 64
      → Prepared config c.session
      → IsValid c.queue
      → c.backoff_ms ≤ max config.ws_backoff_ms config.ws_backoff_max_ms
      → ws_thread json config has_context rs c ≡ some c'
      → Kept config (total_connections rs) c c'
  unfolding ws_thread
  ws_thread-Kept false rs c hp hr p v b r =
      subst (Kept config (total_connections rs) c) (eq_of_some r) (record {
        told = record {
          count = 0;
          sent_is = sym (append-nil c.sent);
          count_le = omega arith;
          prepared = p;
        };
        valid = v;
        backoff = b;
      })
  ws_thread-Kept true rs c hp hr p v b r =
      let (told, safe) = ws_rounds-Kept rs c hp hr p (record { valid = v; backoff = b }) r in
      record { told = told; valid = safe.valid; backoff = safe.backoff }
