-- ===== src/HttpPoller/Tests.antt =====
-- Rounds of the poller, and its theorems at concrete inputs.
use yurei_jsonrpc_client.Prelude.{
  ◌++◌, ◌≤◌, List, ◌+◌, ◌-◌, ◌*◌, ◌<◌, ◌≡◌, refl, true, false, none, some, [], ◌∷◌, arith,
  replicate, length,
}
use yurei_jsonrpc_client.CString.{until_nul, codes}
use yurei_jsonrpc_client.Metrics.{init}
use yurei_jsonrpc_client.Metrics.Extremes.{quiet}
use yurei_jsonrpc_client.Mentions.{mentions}
use yurei_jsonrpc_client.Parser.Extract.{message_events}
use yurei_jsonrpc_client.RateLimiter
use yurei_jsonrpc_client.RateLimiter.{RateLimiter, nano, wait, wait_loop, refill_tokens}
use yurei_jsonrpc_client.HttpPoller.Paced.{poller_thread-paced}
use yurei_jsonrpc_client.Parser.Sample.{
  config, tree_json, notification, empty_queue, notification_events,
}
use yurei_jsonrpc_client.HttpPoller.{
  poller_thread, Poller, Exchange, Instant, receive, latency_us, poll_round, poll_loop,
  failed_round, transfer_round, write_callback,
}
use yurei_jsonrpc_client.HttpPoller.Request.{build_payload, request_text, build_payload-request}
use yurei_jsonrpc_client.HttpPoller.Receive.{
  stored, joined, nanos_of, receive-joined, latency_us-nanos,
}
use yurei_jsonrpc_client.HttpPoller.Rounds.{Brought, poll_round-Brought}
use yurei_jsonrpc_client.HttpPoller.Slots.{Polled, poller_thread-Polled}

payload_whole : build_payload config 42 ≡ request_text (mentions (codes "6EF8") (codes "675k")) 42
payload_whole = build_payload-request config 42 (omega arith) (omega arith)

whole_answer :
    receive (stored (codes "{" ∷ codes "}" ∷ [])) none
    ≡ (true, some (joined (codes "{" ∷ codes "}" ∷ [])))
whole_answer = receive-joined (codes "{") (codes "}" ∷ [])

-- The second reading has fewer nanoseconds than the first.
abbrev start : Instant
start = record { seconds = 7; nanos = 999_999_000 }

abbrev stop : Instant
stop = record { seconds = 9; nanos = 1_500 }

a_second : latency_us start stop ≡ 1_000_003
unfolding latency_us
a_second = refl

latency_close :
    (latency_us start stop * 1000 < nanos_of stop - nanos_of start + 1000)
    × (nanos_of stop - nanos_of start < latency_us start stop * 1000 + 1000)
latency_close = latency_us-nanos start stop (omega arith) (omega arith) (omega arith)

abbrev exchange : Exchange
exchange = record {
  gap = 0;
  oversleeps = [];
  pieces = stored (codes "{" ∷ codes "}" ∷ []);
  completed = true;
  start = start;
  end = stop;
  mins = quiet ∷ [];
  maxs = quiet ∷ [];
}

abbrev poller : Poller
poller = record {
  running = true;
  queue = empty_queue;
  metrics = some init;
  rate_limiter = none;
  last_slot = 7;
  sent = [];
  slept = [];
}

poll_round-Brought_example :
    (p' : Poller) × (poll_round tree_json config exchange
        (replicate (length (message_events tree_json config notification)) [])
        poller
      ≡ some (p', []))
    × Brought
        (build_payload config 7)
        (message_events tree_json config notification)
        (length (joined (codes "{" ∷ codes "}" ∷ [])))
        init
        poller
        p'
poll_round-Brought_example =
    poll_round-Brought tree_json config exchange (codes "{") (codes "}" ∷ []) notification init
      poller refl refl refl refl (unfold until_nul in refl) refl refl (omega arith) (omega arith)
      refl (rw notification_events (omega arith))

-- The round that both examples are about, and the poller after it.
brought :
    (p' : Poller) × (poll_round tree_json config exchange
        (replicate (length (message_events tree_json config notification)) [])
        poller
      ≡ some (p', []))
    × Brought
        (build_payload config 7)
        (message_events tree_json config notification)
        (length (joined (codes "{" ∷ codes "}" ∷ [])))
        init
        poller
        p'
brought =
    poll_round-Brought tree_json config exchange (codes "{") (codes "}" ∷ []) notification init
      poller refl refl refl refl (unfold until_nul in refl) refl refl (omega arith) (omega arith)
      refl (rw notification_events (omega arith))

abbrev after : Poller
after = brought.0

one_round :
    poller_thread tree_json config true
      (exchange ∷ [])
      (replicate (length (message_events tree_json config notification)) [])
      poller
    ≡ some (after, [])
unfolding poller_thread poll_loop
one_round = rw brought.1 refl

poller_thread-Polled_example : Polled 1 poller after
poller_thread-Polled_example =
    poller_thread-Polled tree_json config true (exchange ∷ [])
      (replicate (length (message_events tree_json config notification)) []) poller (omega arith)
      one_round

-- The transfer fails, with no metrics.
abbrev broken : Exchange
broken = record exchange { completed = false }

abbrev unmetered : Poller
unmetered = record poller { metrics = none }

stays :
    poll_loop tree_json config (broken ∷ []) [] unmetered
    ≡ some (record unmetered { sent = build_payload config 7 ∷ []; slept = 1_000_000 ∷ [] }, [])
unfolding poll_loop poll_round transfer_round receive failed_round write_callback
stays = refl

-- Ten requests a second, with a full bucket.
abbrev limiter : RateLimiter
limiter = record {
  tokens_per_second = 10;
  tokens = 20_000_000_000;
  max_tokens = 20_000_000_000;
  last_refill = 0;
}

limiter-IsValid : RateLimiter.Admission.IsValid limiter
limiter-IsValid = omega arith

abbrev with_limiter : Poller
with_limiter = record unmetered { rate_limiter = some limiter }

-- Two rounds, the second a millisecond after the refill of the first.
abbrev two_rounds : List Exchange
two_rounds = broken ∷ record broken { gap = 1_000_000 } ∷ []

abbrev asked_twice : Poller
asked_twice = record with_limiter {
  rate_limiter = some (record limiter { tokens = 18_010_000_000; last_refill = 1_000_000 });
  sent = build_payload config 7 ∷ build_payload config 7 ∷ [];
  slept = 1_000_000 ∷ 1_000_000 ∷ [];
}

asks_twice : poller_thread tree_json config true two_rounds [] with_limiter ≡ some (asked_twice, [])
unfolding poller_thread poll_loop poll_round transfer_round receive failed_round write_callback wait
    wait_loop refill_tokens
asks_twice = refl

poller_thread-paced_example :
    (rl' : RateLimiter) × (asked_twice.rate_limiter ≡ some rl')
    × (0 ≤ rl'.last_refill)
    × (length asked_twice.sent ≡ 0 + 2)
    × (2 * nano ≤ (2 * nano + (rl'.last_refill - 0)) * 10)
    × (asked_twice.slept ≡ [] ++ replicate 2 1_000_000)
poller_thread-paced_example =
    poller_thread-paced tree_json config two_rounds [] with_limiter limiter refl limiter-IsValid
      (omega arith) asks_twice
