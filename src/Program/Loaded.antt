-- ===== src/Program/Loaded.antt =====
-- What the threads send with a configuration that was loaded.
use yurei_jsonrpc_client.EventQueue.Invariant.{IsValid}
use yurei_jsonrpc_client.WebsocketClient.Thread.{
  ws_thread-Kept, ws_thread, total_connections, Kept, Round,
}
use yurei_jsonrpc_client.Prelude.{
  arith, sym, Bool, ℕ, ◌<◌, ◌≡◌, refl, true, false, Option, some, List, [], ◌∷◌, ◌++◌, length,
  Bytes, eq_of_some, subst, inl,
}
use yurei_jsonrpc_client.Config.Fields.{Config}
use yurei_jsonrpc_client.Config.Load.{Environment, load}
use yurei_jsonrpc_client.Config.Fits.{Fits, load-Fits}
use yurei_jsonrpc_client.EventQueue.Event.{Event, EventKind, unknown, pumpfun, raydium}
use yurei_jsonrpc_client.EventQueue.Ring.{EventQueue, Schedule}
use yurei_jsonrpc_client.Parser.Json.{CJson}
use yurei_jsonrpc_client.DbWriter.Insert.{
  table_for_event, statement, before_table, after_table, statement-query, if_set,
}
use yurei_jsonrpc_client.Mentions.{mentions}
use yurei_jsonrpc_client.HttpPoller.Request.{build_payload, request_text, build_payload-request}
use yurei_jsonrpc_client.WebsocketClient.{WsClient}
use yurei_jsonrpc_client.Program.Start.{ws_client_start}

-- Nothing of what the program sends is cut off: the request of the poller, the subscriptions of the
-- client's thread, and the query for an event.
pub record SendsWhole (config : Config) (last_slot : ℕ) (event : Event) (table : Bytes)
    (rs : List Round) (c c' : WsClient) : Type 0 where
  pub request :
      build_payload config last_slot
      ≡ request_text (mentions config.pumpfun_program config.raydium_program) last_slot
  pub subscriptions : Kept config (total_connections rs) c c'
  pub query : (statement table event).query ≡ before_table ++ (table ++ after_table)

if_set-eq : (s : Bytes) {t : Bytes} → if_set s ≡ some t → s ≡ t
if_set-eq [] h = cc
if_set-eq (c ∷ s) h = eq_of_some h

length-table_for_event :
    (kind : EventKind) (config : Config) {table : Bytes}
    → Fits config
    → table_for_event kind config ≡ some table
    → length table < 64
unfolding table_for_event
length-table_for_event pumpfun config v h =
    subst (λ (t : Bytes). length t < 64) (if_set-eq config.pumpfun_table h) v.pumpfun_table_fits
length-table_for_event raydium config v h =
    subst (λ (t : Bytes). length t < 64) (if_set-eq config.raydium_table h) v.raydium_table_fits
length-table_for_event unknown config v h = cc

-- A client that was started has nothing to send and the first backoff.
record Started (config : Config) (q : EventQueue) (c : WsClient) : Type 0 where
  idle : c.session.send_pending ≡ false
  queue_is : c.queue ≡ q
  first : c.backoff_ms ≡ config.ws_backoff_ms

ws_client_start-Started :
    (config : Config) (q : EventQueue) (times : Schedule) {c : WsClient}
    → ws_client_start config q times false true ≡ some c
    → Started config q c
unfolding ws_client_start
ws_client_start-Started config q times h =
    subst (Started config q) (eq_of_some h) (record { idle = refl; queue_is = refl; first = refl })

Fits-SendsWhole :
    (json : CJson) (config : Config) (last_slot : ℕ) (event : Event) {table : Bytes}
    (q : EventQueue) (times : Schedule) (has_context : Bool) (rs : List Round) {c c' : WsClient}
    → Fits config
    → IsValid q
    → table_for_event event.kind config ≡ some table
    → ws_client_start config q times false true ≡ some c
    → ws_thread json config has_context rs c ≡ some c'
    → SendsWhole config last_slot event table rs c c'
Fits-SendsWhole json config last_slot event {table} q times has_context rs {c} fits valid named
      started returned =
    let s = ws_client_start-Started config q times started in
    record {
      request =
          build_payload-request config last_slot fits.pumpfun_program_fits
            fits.raydium_program_fits;
      subscriptions =
          ws_thread-Kept json config has_context rs c fits.pumpfun_program_fits
            fits.raydium_program_fits (inl s.idle) (subst IsValid (sym s.queue_is) valid)
            (ground (arith, s.first)) returned;
      query = statement-query table event (length-table_for_event event.kind config fits named);
    }

-- With any configuration that can be loaded, nothing is cut off of a request of the poller, of the
-- query for an event that has a table, and of the subscriptions of the thread of a client that was
-- started on a valid queue, sent at most once for each connection, if that thread returns.
pub load-SendsWhole :
    (json : CJson) (file : Option Bytes) (env : Environment) (last_slot : ℕ) (event : Event)
    {table : Bytes} (q : EventQueue) (times : Schedule) (has_context : Bool) (rs : List Round)
    {c c' : WsClient}
    → IsValid q
    → table_for_event event.kind (load file env) ≡ some table
    → ws_client_start (load file env) q times false true ≡ some c
    → ws_thread json (load file env) has_context rs c ≡ some c'
    → SendsWhole (load file env) last_slot event table rs c c'
load-SendsWhole json file env last_slot event q times has_context rs =
    Fits-SendsWhole json (load file env) last_slot event q times has_context rs (load-Fits file env)
