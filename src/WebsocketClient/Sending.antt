-- ===== src/WebsocketClient/Sending.antt =====
-- What the client writes to the socket.
use yurei_jsonrpc_client.CString.{until_nul}
use yurei_jsonrpc_client.Prelude.{
  replicate-append, bind_some, ℕ, suc, ◌+◌, ◌≤◌, ◌<◌, ◌≡◌, refl, sym, ◌∙◌, subst, Bool, true, false,
  if◌then◌else◌, none, some, List, [], ◌∷◌, ◌++◌, arith, length, Bytes, ◌⊎◌, inl, inr, append-nil,
  eq_of_some, replicate, append_assoc,
}
use yurei_jsonrpc_client.Config.Fields.{Config}
use yurei_jsonrpc_client.Parser.Json.{CJson}
use yurei_jsonrpc_client.Parser.Message.{handle_message}
use yurei_jsonrpc_client.WebsocketClient.{
  disconnected, WsSessionData, WsClient, Reason, client_established, connection_error, closed,
  client_closed, client_receive, client_writeable, other, schedule_subscription, write_outbound,
  receive_message, ws_callback, callbacks,
}
use yurei_jsonrpc_client.WebsocketClient.Subscription.{
  subscription, ready, schedule_subscription-ready, write_outbound-SentOnce,
}

-- Whether the session has something to send, as a number.
abbrev pub pending : WsSessionData → ℕ
pending s = if s.send_pending then 1 else 0

-- A session that sends nothing, or the whole subscription.
abbrev pub Prepared : Config → WsSessionData → Type 0
Prepared config s = (s.send_pending ≡ false) ⊎ (s ≡ ready config)

abbrev pub connections : List Reason → ℕ
connections [] = 0
connections (client_established ∷ rs) = suc (connections rs)
connections (_ ∷ rs) = connections rs

-- All that callbacks have sent is the subscription, and at most once for each of `n` connections, and
-- once for what was pending before.
pub record Told (config : Config) (n : ℕ) (c c' : WsClient) : Type 0 where
  pub count : ℕ
  pub sent_is : c'.sent ≡ c.sent ++ replicate count (subscription config)
  pub count_le : count + pending c'.session ≤ pending c.session + n
  pub prepared : Prepared config c'.session

pub Told-quiet :
    (config : Config) (c c' : WsClient)
    → Prepared config c.session
    → c'.sent ≡ c.sent
    → c'.session ≡ c.session
    → Told config 0 c c'
Told-quiet config c c' ready' same_sent same_session = record {
  count = 0;
  sent_is = same_sent ∙ sym (append-nil c.sent);
  count_le = rw same_session (omega arith);
  prepared = rw same_session ready';
}

write_outbound-Told :
    (config : Config) (c : WsClient)
    → length config.pumpfun_program < 64
    → length config.raydium_program < 64
    → Prepared config c.session
    → Told config 0 c (write_outbound c)
unfolding write_outbound
write_outbound-Told config c hp hr (inl idle) =
    let same : write_outbound c ≡ c = simp idle in
    subst (Told config 0 c) (sym same) (Told-quiet config c c (inl idle) refl refl)
write_outbound-Told config c hp hr (inr full) =
    let a = write_outbound-SentOnce config c hp hr full in
    let held : pending c.session ≡ 1 = rw full refl in
    let empty : pending (write_outbound c).session ≡ 0 = rw a.idle refl in
    record { count = 1; sent_is = a.sent_is; count_le = omega arith; prepared = inl a.idle }

pub Told-trans :
    (config : Config) (c c1 c' : WsClient) {m n : ℕ}
    → Told config m c c1
    → Told config n c1 c'
    → Told config (m + n) c c'
Told-trans config c c1 c' a b = record {
  count = a.count + b.count;
  sent_is =
      b.sent_is
      ∙ rw
          (
            a.sent_is,
            append_assoc c.sent (replicate a.count (subscription config))
                (replicate b.count (subscription config)),
            replicate-append a.count b.count (subscription config),
          )
          refl;
  count_le = omega (arith, a.count_le, b.count_le);
  prepared = b.prepared;
}

new_connections : Reason → ℕ
new_connections r = connections (r ∷ [])

module _ (json : CJson) (config : Config) where
  receive_message-Told :
      (allocated : Bool) (payload : Bytes) (c : WsClient) {c' : WsClient}
      → Prepared config c.session
      → receive_message json config allocated payload c ≡ some c'
      → Told config 0 c c'
  unfolding receive_message
  receive_message-Told false payload c ready' r =
      subst (Told config 0 c) (eq_of_some r) (Told-quiet config c c ready' refl refl)
  receive_message-Told true payload c ready' r =
      let (h, handled, rest) =
        bind_some (handle_message json config (until_nul payload) c.queue c.times none) r in
      subst (Told config 0 c) (eq_of_some rest)
        (Told-quiet config c (record c { queue = h.queue; times = h.times }) ready' refl refl)

  ws_callback-Told :
      (r : Reason) (c : WsClient) {c' : WsClient}
      → length config.pumpfun_program < 64
      → length config.raydium_program < 64
      → Prepared config c.session
      → ws_callback json config r c ≡ some c'
      → Told config (new_connections r) c c'
  unfolding ws_callback new_connections
  ws_callback-Told client_established c hp hr ready' r =
      subst (Told config 1 c) (eq_of_some r) (record {
        count = 0;
        sent_is = sym (append-nil c.sent);
        count_le = unfold schedule_subscription in omega arith;
        prepared = inr (schedule_subscription-ready config hp hr);
      })
  ws_callback-Told connection_error c hp hr ready' r =
      subst (Told config 0 c) (eq_of_some r) (Told-quiet config c (disconnected c) ready' refl refl)
  ws_callback-Told closed c hp hr ready' r =
      subst (Told config 0 c) (eq_of_some r) (Told-quiet config c (disconnected c) ready' refl refl)
  ws_callback-Told client_closed c hp hr ready' r =
      subst (Told config 0 c) (eq_of_some r) (Told-quiet config c (disconnected c) ready' refl refl)
  ws_callback-Told (client_receive allocated payload) c hp hr ready' r =
      receive_message-Told allocated payload c ready' r
  ws_callback-Told client_writeable c hp hr ready' r =
      subst (Told config 0 c) (eq_of_some r) (write_outbound-Told config c hp hr ready')
  ws_callback-Told other c hp hr ready' r =
      subst (Told config 0 c) (eq_of_some r) (Told-quiet config c c ready' refl refl)

  connections-cons :
      (r : Reason) (rs : List Reason) → connections (r ∷ rs) ≡ new_connections r + connections rs
  unfolding new_connections
  connections-cons client_established rs = omega arith
  connections-cons connection_error rs = omega arith
  connections-cons closed rs = omega arith
  connections-cons client_closed rs = omega arith
  connections-cons (client_receive allocated payload) rs = omega arith
  connections-cons client_writeable rs = omega arith
  connections-cons other rs = omega arith

  -- With program ids that fit their arrays, over any run of callbacks that returns, from a session
  -- with nothing to send or the whole subscription: all that was sent is the whole subscription,
  -- at most once for each connection established and once for what was pending before.
  pub callbacks-Told :
      (rs : List Reason) (c : WsClient) {c' : WsClient}
      → length config.pumpfun_program < 64
      → length config.raydium_program < 64
      → Prepared config c.session
      → callbacks json config rs c ≡ some c'
      → Told config (connections rs) c c'
  unfolding callbacks
  callbacks-Told [] c hp hr ready' r =
      subst (Told config 0 c) (eq_of_some r) (Told-quiet config c c ready' refl refl)
  callbacks-Told (r ∷ rs) c {c'} hp hr ready' returned =
      let (c1, ok, rest) = bind_some (ws_callback json config r c) returned in
      let a = ws_callback-Told r c hp hr ready' ok in
      let b = callbacks-Told rs c1 hp hr a.prepared rest in
      subst (λ (n : ℕ). Told config n c c') (sym (connections-cons r rs))
        (Told-trans config c c1 c' {m = new_connections r} {n = connections rs} a b)

  -- With program ids that fit their arrays, a connection that is established and then writeable
  -- sends the whole subscription once; the client is connected, with the first backoff.
  pub callbacks-subscribe :
      (c : WsClient)
      → length config.pumpfun_program < 64
      → length config.raydium_program < 64
      → (c' : WsClient) × (callbacks json config (client_established ∷ client_writeable ∷ []) c
          ≡ some c')
        × (c'.sent ≡ c.sent ++ subscription config ∷ [])
        × (c'.session.send_pending ≡ false)
        × (c'.connected ≡ true)
        × (c'.backoff_ms ≡ config.ws_backoff_ms)
  unfolding callbacks ws_callback
  callbacks-subscribe c hp hr =
      let c1 : WsClient = record c {
        connected = true;
        backoff_ms = config.ws_backoff_ms;
        session = schedule_subscription config;
      } in
      let a = write_outbound-SentOnce config c1 hp hr (schedule_subscription-ready config hp hr) in
      (write_outbound c1, refl, a.sent_is, a.idle, a.same_connected, a.same_backoff)
