-- ===== src/WebsocketClient/Subscription.antt =====
-- The subscription that the client sends.
use yurei_jsonrpc_client.Prelude.{
  ◌<◌, ◌≡◌, refl, ap, ◌∙◌, true, false, ltb, [], ◌∷◌, ◌++◌, arith, length, length-append, take_all,
  Bytes,
}
use yurei_jsonrpc_client.CString.{codes, copy_string}
use yurei_jsonrpc_client.Config.Fields.{Config}
use yurei_jsonrpc_client.Mentions.{mentions, build_mentions_array-mentions, length-mentions}
use yurei_jsonrpc_client.WebsocketClient.{
  WsSessionData, WsClient, subscription_text, schedule_subscription, write_outbound,
}

-- The whole subscription.
abbrev pub subscription : Config → Bytes
subscription config = subscription_text (mentions config.pumpfun_program config.raydium_program)

pub length-subscription :
    (config : Config)
    → length config.pumpfun_program < 64
    → length config.raydium_program < 64
    → length (subscription config) < 512
length-subscription config hp hr =
    let m = mentions config.pumpfun_program config.raydium_program in
    omega (
      arith,
      length-mentions config.pumpfun_program config.raydium_program hp hr,
      length-append m (codes "},{\"commitment\":\"confirmed\"}]}"),
    )

abbrev session_of : Bytes → WsSessionData
session_of text = record {
  outbound = copy_string 512 text;
  outbound_len = length text;
  send_pending = true;
}

-- A session that has the whole subscription to send.
abbrev pub ready : Config → WsSessionData
ready config = record {
  outbound = subscription config;
  outbound_len = length (subscription config);
  send_pending = true;
}

pub schedule_subscription-ready :
    (config : Config)
    → length config.pumpfun_program < 64
    → length config.raydium_program < 64
    → schedule_subscription config ≡ ready config
unfolding schedule_subscription
schedule_subscription-ready config hp hr =
    let fits = length-subscription config hp hr in
    let whole = build_mentions_array-mentions config hp hr in
    let all = take_all 511 (subscription config) (omega arith) in
    ap (λ (m : Bytes). session_of (subscription_text m)) whole
    ∙ ap (λ (t : Bytes). record (ready config) { outbound = t }) all

-- What sending the subscription leaves behind.
pub record SentOnce (config : Config) (c c' : WsClient) : Type 0 where
  pub sent_is : c'.sent ≡ c.sent ++ subscription config ∷ []
  pub idle : c'.session.send_pending ≡ false
  pub same_connected : c'.connected ≡ c.connected
  pub same_backoff : c'.backoff_ms ≡ c.backoff_ms

pub write_outbound-SentOnce :
    (config : Config) (c : WsClient)
    → length config.pumpfun_program < 64
    → length config.raydium_program < 64
    → c.session ≡ ready config
    → SentOnce config c (write_outbound c)
unfolding write_outbound
write_outbound-SentOnce config c hp hr full =
    let fits = length-subscription config hp hr in
    let some_room : ltb 512 (length (subscription config)) ≡ false = ground arith in
    let all = take_all (length (subscription config)) (subscription config) (omega arith) in
    rw (full, some_room, all)
      (record { sent_is = refl; idle = refl; same_connected = refl; same_backoff = refl })
