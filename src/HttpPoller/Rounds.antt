-- ===== src/HttpPoller/Rounds.antt =====
-- What a round of the poller does to its slot, its queue and its metrics.
use yurei_jsonrpc_client.CString.{until_nul}
use yurei_jsonrpc_client.Prelude.{
  ℕ, zero, suc, ◌+◌, ◌%◌, ◌≤◌, ◌<◌, ◌≡◌, refl, ap, true, false, ltb, if◌then◌else◌, none, some,
  List, [], ◌∷◌, ◌++◌, arith, length, replicate, Bytes,
}
use yurei_jsonrpc_client.Config.Fields.{Config}
use yurei_jsonrpc_client.EventQueue.Event.{Event}
use yurei_jsonrpc_client.EventQueue.Invariant.{IsValid}
use yurei_jsonrpc_client.EventQueue.Fifo.{contents}
use yurei_jsonrpc_client.Metrics.{Metrics, u64_mod, bytes, event}
use yurei_jsonrpc_client.Metrics.Extremes.{quiet}
use yurei_jsonrpc_client.Metrics.Requests.{InRange, request-Counted}
use yurei_jsonrpc_client.Parser.Json.{CJson}
use yurei_jsonrpc_client.Parser.Message.{value_or_zero}
use yurei_jsonrpc_client.Parser.Extract.{highest, message_events}
use yurei_jsonrpc_client.Parser.Handling.{handle_message-accepts}
use yurei_jsonrpc_client.HttpPoller.{
  rested, Poller, Exchange, latency_us, count_events, take_result, message_round, transfer_round,
  poll_round,
}
use yurei_jsonrpc_client.HttpPoller.Request.{build_payload}
use yurei_jsonrpc_client.HttpPoller.Receive.{stored, joined, receive-joined}

-- The counts after some events.
record Grown (n : ℕ) (m m' : Metrics) : Type 0 where
  events_is : m'.events_processed ≡ (m.events_processed + n) % u64_mod
  total_is : m'.requests_total ≡ m.requests_total
  success_is : m'.requests_success ≡ m.requests_success
  bytes_is : m'.bytes_received ≡ m.bytes_received

count_events-Grown :
    (n : ℕ) (m : Metrics) → m.events_processed < u64_mod → Grown n m (count_events n m)
unfolding count_events event
count_events-Grown zero m v = omega arith
count_events-Grown (suc n) m v =
    let more = count_events-Grown n (event m) (omega arith) in ground arith

-- A round that brought the events `es`: they are on the queue behind what was there, the slot is the
-- highest seen, the request was sent, and the request, its bytes and the events are counted.
pub record Brought (request : Bytes) (es : List Event) (size : ℕ) (m : Metrics) (p p' : Poller)
    : Type 0 where
  pub valid : IsValid p'.queue
  pub held : contents p'.queue ≡ contents p.queue ++ es
  pub sent_is : p'.sent ≡ p.sent ++ request ∷ []
  pub slot_is : p'.last_slot ≡ highest p.last_slot es
  pub counts :
      (m' : Metrics) × (p'.metrics ≡ some m')
      × (m'.events_processed ≡ (m.events_processed + length es) % u64_mod)
      × (m'.requests_total ≡ (m.requests_total + 1) % u64_mod)
      × (m'.requests_success ≡ (m.requests_success + 1) % u64_mod)
      × (m'.bytes_received ≡ (m.bytes_received + size) % u64_mod)

highest-raises : (n : ℕ) (es : List Event) → n ≤ highest n es
highest-raises n [] = omega arith
highest-raises n (e ∷ es) =
    let later = highest-raises (if ltb n e.slot then e.slot else n) es in ground arith

-- The slot that `poller_thread` keeps.
slot_kept :
    (es : List Event) (n : ℕ)
    → (if ltb 0 (length es) then (if ltb n (highest n es) then highest n es else n) else n)
      ≡ highest n es
slot_kept [] n = refl
slot_kept (e ∷ es) n = let up = highest-raises n (e ∷ es) in ground arith

module _ (json : CJson) (config : Config) where
  open json use {Item, parse}

  -- A round without a rate limiter whose transfer brings a message that parses, for a valid open
  -- queue with room for all its events, with no other thread at the mutex or the counters: it
  -- returns; the request for the old last slot was sent, the events are on the queue in the order
  -- of the message, the last slot is the highest seen, and one successful request, its bytes and
  -- the events are counted.
  pub poll_round-Brought :
      (x : Exchange) (piece : Bytes) (pieces : List Bytes) (root : Item) (m : Metrics) (p : Poller)
      → x.completed ≡ true
      → x.pieces ≡ stored (piece ∷ pieces)
      → x.mins ≡ quiet ∷ []
      → x.maxs ≡ quiet ∷ []
      → parse (until_nul (joined (piece ∷ pieces))) ≡ some root
      → p.rate_limiter ≡ none
      → p.metrics ≡ some m
      → InRange m
      → IsValid p.queue
      → p.queue.closed ≡ false
      → p.queue.size + length (message_events json config root) ≤ p.queue.capacity
      → (p' : Poller) × (poll_round json config x
            (replicate (length (message_events json config root)) [])
            p
          ≡ some (p', []))
        × Brought
            (build_payload config p.last_slot)
            (message_events json config root)
            (length (joined (piece ∷ pieces)))
            m
            p
            p'
  unfolding poll_round transfer_round message_round take_result latency_us bytes
  poll_round-Brought x piece pieces root m p done got lows highs parsed unlimited has v qv open'
        room =
      let es : List Event = message_events json config root in
      let text : Bytes = joined (piece ∷ pieces) in
      let (m1, r1, c1) = request-Counted true (latency_us x.start x.end) {m = m} v in
      let (h, r2, a) =
        handle_message-accepts json config (until_nul text) root p.queue (some p.last_slot) parsed
          qv open' room in
      let m2 : Metrics = bytes (length text) m1 in
      let g = count_events-Grown (length es) m2 (omega (arith, c1.events_is)) in
      (
        rested config (
            take_result h (record p {
              rate_limiter = none;
              metrics = some m2;
              sent = p.sent ++ build_payload config p.last_slot ∷ [];
            })),
        rw (got, receive-joined piece pieces, done, unlimited, has, lows, highs, r1, r2, a.left)
            refl,
        let shown = ap value_or_zero a.slot_out in
            record {
              valid = rw a.code_is a.valid;
              held = rw a.code_is a.held;
              sent_is = rw a.code_is refl;
              slot_is = rw (a.code_is, shown) (slot_kept es p.last_slot);
              counts = (
                count_events (length es) m2,
                rw a.code_is refl,
                omega (arith, g.events_is, c1.events_is),
                omega (arith, g.total_is, c1.total_is),
                omega (arith, g.success_is, c1.success_is),
                omega (arith, g.bytes_is, c1.bytes_is),
              );
            },
      )
