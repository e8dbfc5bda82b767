-- ===== src/HttpPoller.antt =====
-- src/http_poller.c: the buffer of an answer, and the rounds of the poller's thread. libcurl is a list
-- of what it does: the pieces of an answer that it hands to `write_callback`, and whether the
-- transfer succeeded. The buffer's terminator is not written down.
use yurei_jsonrpc_client.CString.{until_nul}
pub mod Request
pub mod Receive
pub mod Rounds
pub mod Slots
pub mod Paced
mod Tests
use yurei_jsonrpc_client.Prelude.{
  ◌^◌, ◌%◌, ◌&&◌, ℕ, zero, suc, ◌+◌, ◌-◌, ◌*◌, ◌/◌, Bool, true, false, leb, ltb, ◌==◌,
  if◌then◌else◌, Option, none, some, List, [], ◌∷◌, ◌++◌, length, Bytes, option_case, ◌>>=◌,
}
use yurei_jsonrpc_client.Config.Fields.{Config}
use yurei_jsonrpc_client.EventQueue.Ring.{EventQueue, Schedule}
use yurei_jsonrpc_client.Metrics.{Metrics, Attempt, request, bytes, event}
use yurei_jsonrpc_client.RateLimiter.{RateLimiter, wait}
use yurei_jsonrpc_client.HttpPoller.Request.{build_payload}
use yurei_jsonrpc_client.Parser.Json.{CJson}
use yurei_jsonrpc_client.Parser.Message.{Handled, handle_message, value_or_zero}

-- `CurlBuffer`: NULL is `none`, and the length is that of the data.
abbrev pub CurlBuffer : Type 0
CurlBuffer = Option Bytes

abbrev pub bytes_of : CurlBuffer → Bytes
bytes_of none = []
bytes_of (some text) = text

-- `write_callback`; the flag says whether `realloc` succeeds.
unfoldable pub write_callback : Bool → Bytes → CurlBuffer → ℕ × CurlBuffer
write_callback false piece buffer = (0, buffer)
write_callback true piece buffer = (length piece, some (bytes_of buffer ++ piece))

-- libcurl ends a transfer when the callback does not take the whole piece.
unfoldable pub receive : List (Bool × Bytes) → CurlBuffer → Bool × CurlBuffer
unfolding write_callback
receive [] buffer = (true, buffer)
receive ((allocated, piece) ∷ pieces) buffer =
    let (taken, buffer') = write_callback allocated piece buffer in
    let rest = receive pieces buffer' in if taken == length piece then rest else (false, buffer')

-- A `struct timespec` of the monotonic clock.
pub record Instant : Type 0 where
  pub seconds : ℕ
  pub nanos : ℕ

-- `latency_us`. The difference of the nanoseconds may be negative, and its quotient is rounded
-- towards 0.
unfoldable pub latency_us : Instant → Instant → ℕ
latency_us start end =
    let whole = (end.seconds - start.seconds) * 1000000 in
    if leb start.nanos end.nanos
    then whole + (end.nanos - start.nanos) / 1000
    else whole - (start.nanos - end.nanos) / 1000

-- `YureiHttpPoller` and the objects that it points to, with the requests sent so far.
pub record Poller : Type 0 where
  pub running : Bool
  pub queue : EventQueue
  pub metrics : Option Metrics
  pub rate_limiter : Option RateLimiter
  pub last_slot : ℕ
  pub sent : List Bytes
  pub slept : List ℕ

-- What happens to a round: the time since the limiter's last
-- refill and the sleeps of its wait, the pieces of the answer, whether the
-- transfer succeeded otherwise, the clock around it, and the attempts of the loops in `Metrics`.
pub record Exchange : Type 0 where
  pub gap : ℕ
  pub oversleeps : List ℕ
  pub pieces : List (Bool × Bytes)
  pub completed : Bool
  pub start : Instant
  pub end : Instant
  pub mins : List Attempt
  pub maxs : List Attempt

abbrev pub limited : Exchange → Option RateLimiter → Option (Option RateLimiter)
limited x none = some none
limited x (some rl) = do (now, rl') ← wait x.oversleeps (rl.last_refill + x.gap) rl; some (some rl')

-- `yurei_metrics_request` and `yurei_metrics_bytes`, on metrics that may be NULL.
abbrev pub metered : Exchange → Bool → Option ℕ → Option Metrics → Option (Option Metrics)
metered x success size none = some none
metered x success size (some m) = do
  m' ← request x.mins x.maxs success (latency_us x.start x.end) m
  some (some (option_case size m' λ n. bytes n m'))

unfoldable pub count_events : ℕ → Metrics → Metrics
count_events zero m = m
count_events (suc n) m = count_events n (event m)

abbrev counted : ℕ → Option Metrics → Option Metrics
counted n none = none
counted n (some m) = some (count_events n m)

-- The poller after `yurei_parser_handle_message` returned.
unfoldable pub take_result : Handled → Poller → Poller
take_result h poller =
    option_case h.code (record poller { queue = h.queue })
      λ processed.
        let highest_slot = value_or_zero h.out_highest_slot in
        record poller {
          queue = h.queue;
          metrics = counted processed poller.metrics;
          last_slot =
              if ltb 0 processed
              then (if ltb poller.last_slot highest_slot then highest_slot else poller.last_slot)
              else poller.last_slot;
        }

-- `usleep` at the end of a round, in microseconds.
abbrev pub rested : Config → Poller → Poller
rested config poller = record poller {
  slept = poller.slept ++ (config.poll_interval_ms * 1000 % 2 ^ 32) ∷ [];
}

module _ (json : CJson) (config : Config) where
  -- A round whose transfer failed, or brought no data.
  unfoldable pub failed_round : Exchange → Schedule → Poller → Option (Poller × Schedule)
  failed_round x times poller = do
    metrics ← metered x false none poller.metrics
    some (record poller { metrics = metrics }, times)

  unfoldable pub message_round : Exchange → Bytes → Schedule → Poller → Option (Poller × Schedule)
  message_round x text times poller = do
    metrics ← metered x true (some (length text)) poller.metrics
    h ← handle_message json config (until_nul text) poller.queue times (some poller.last_slot)
    some (take_result h (record poller { metrics = metrics }), h.times)

  -- A round from `curl_easy_perform` on.
  unfoldable pub transfer_round : Exchange → Schedule → Poller → Option (Poller × Schedule)
  unfolding receive failed_round message_round
  transfer_round x times poller =
      let (taken, buffer) = receive x.pieces none in
      let failed = failed_round x times poller in
      if taken && x.completed
      then option_case buffer failed (λ text. message_round x text times poller)
      else failed

  -- A round of the loop of `poller_thread`. `none` means that the schedule of the other threads, the
  -- sleeps or the attempts ended.
  unfoldable pub poll_round : Exchange → Schedule → Poller → Option (Poller × Schedule)
  poll_round x times poller = do
    limiter ← limited x poller.rate_limiter
    (poller', times') ← transfer_round x times (record poller {
      rate_limiter = limiter;
      sent = poller.sent ++ build_payload config poller.last_slot ∷ [];
    })
    some (rested config poller', times')

  -- The loop: a round for each reading of `running` that is true.
  unfoldable pub poll_loop : List Exchange → Schedule → Poller → Option (Poller × Schedule)
  poll_loop [] times poller = some (poller, times)
  poll_loop (x ∷ xs) times poller = do
    (poller', times') ← poll_round x times poller
    poll_loop xs times' poller'

  -- `poller_thread`; the flag says whether there is a handle of curl.
  unfoldable pub poller_thread :
      Bool → List Exchange → Schedule → Poller → Option (Poller × Schedule)
  poller_thread false xs times poller = some (record poller { running = false }, times)
  poller_thread true xs times poller = poll_loop xs times poller
