-- ===== src/Metrics.antt =====
-- src/metrics.c and include/metrics.h: counters of requests, latencies, events and bytes. The
-- counters are atomic and 64 bits wide.
pub mod Extremes
pub mod Requests
pub mod Report
mod Tests
use yurei_jsonrpc_client.CString.{codes, print_u64}
use yurei_jsonrpc_client.Prelude.{
  ◌++◌, Bytes, ◌>>=◌, ℕ, suc, ◌+◌, ◌-◌, ◌*◌, ◌/◌, ◌%◌, ◌^◌, Bool, true, false, ltb, ◌==◌,
  if◌then◌else◌, Option, none, some, List, [], ◌∷◌,
}

pub record Metrics : Type 0 where
  pub requests_total : ℕ
  pub requests_success : ℕ
  pub requests_failed : ℕ
  pub events_processed : ℕ
  pub latency_sum_us : ℕ
  pub latency_count : ℕ
  pub latency_min_us : ℕ
  pub latency_max_us : ℕ
  pub bytes_received : ℕ
  pub ws_reconnects : ℕ

abbrev pub u64_mod : ℕ
u64_mod = 2 ^ 64

abbrev pub u64_max : ℕ
u64_max = 2 ^ 64 - 1

-- `atomic_fetch_add` on a 64-bit counter.
abbrev pub add_u64 : ℕ → ℕ → ℕ
add_u64 a b = (a + b) % u64_mod

-- `yurei_metrics_init`.
abbrev pub init : Metrics
init = record {
  requests_total = 0;
  requests_success = 0;
  requests_failed = 0;
  events_processed = 0;
  latency_sum_us = 0;
  latency_count = 0;
  latency_min_us = u64_max;
  latency_max_us = 0;
  bytes_received = 0;
  ws_reconnects = 0;
}

-- What comes before an attempt of `atomic_compare_exchange_weak`: the values that other threads store
-- in the cell, and whether the attempt fails for no reason.
pub record Attempt : Type 0 where
  pub stored : Option ℕ
  pub spurious : Bool

abbrev pub cell_after : ℕ → Option ℕ → ℕ
cell_after cell none = cell
cell_after cell (some v) = v

-- The loop of `yurei_metrics_request` that lowers the minimum: the cell, the value `current_min` that
-- was read last, and the attempts. The result is the cell when the loop has ended; `none` means that
-- the attempts ran out.
unfoldable pub lower_min : List Attempt → ℕ → ℕ → ℕ → Option ℕ
lower_min [] cell current latency = if ltb latency current then none else some cell
lower_min (a ∷ as') cell current latency =
    let cell' = cell_after cell a.stored in
    let retry = lower_min as' cell' cell' latency in
    if ltb latency current
    then (if a.spurious then retry else if cell' == current then some latency else retry)
    else some cell

-- The loop that raises the maximum.
unfoldable pub raise_max : List Attempt → ℕ → ℕ → ℕ → Option ℕ
raise_max [] cell current latency = if ltb current latency then none else some cell
raise_max (a ∷ as') cell current latency =
    let cell' = cell_after cell a.stored in
    let retry = raise_max as' cell' cell' latency in
    if ltb current latency
    then (if a.spurious then retry else if cell' == current then some latency else retry)
    else some cell

-- The counters of `yurei_metrics_request`, up to the loops.
unfoldable pub count_request : Bool → ℕ → Metrics → Metrics
count_request success latency m = record m {
  requests_total = add_u64 m.requests_total 1;
  requests_success = if success then add_u64 m.requests_success 1 else m.requests_success;
  requests_failed = if success then m.requests_failed else add_u64 m.requests_failed 1;
  latency_sum_us = add_u64 m.latency_sum_us latency;
  latency_count = add_u64 m.latency_count 1;
}

-- `yurei_metrics_request` with the attempts of its two loops; each loop loads its cell first.
unfoldable pub request : List Attempt → List Attempt → Bool → ℕ → Metrics → Option Metrics
request mins maxs success latency m =
    let m' = count_request success latency m in
    do
      low ← lower_min mins m'.latency_min_us m'.latency_min_us latency
      high ← raise_max maxs m'.latency_max_us m'.latency_max_us latency
      some (record m' { latency_min_us = low; latency_max_us = high })

-- `yurei_metrics_bytes`, `yurei_metrics_event` and `yurei_metrics_ws_reconnect`.
unfoldable pub bytes : ℕ → Metrics → Metrics
bytes n m = record m { bytes_received = add_u64 m.bytes_received n }

unfoldable pub event : Metrics → Metrics
event m = record m { events_processed = add_u64 m.events_processed 1 }

unfoldable pub ws_reconnect : Metrics → Metrics
ws_reconnect m = record m { ws_reconnects = add_u64 m.ws_reconnects 1 }

-- `yurei_metrics_avg_latency_us`.
unfoldable pub avg_latency_us : Metrics → ℕ
avg_latency_us m = if m.latency_count == 0 then 0 else m.latency_sum_us / m.latency_count

-- The minimum that `yurei_metrics_log` prints: 0 before the first request.
unfoldable pub printed_min : Metrics → ℕ
printed_min m = if m.latency_min_us == u64_max then 0 else m.latency_min_us

-- The messages of `yurei_metrics_log`, all of the level `info`. What `printf` makes of the doubles is
-- a parameter: with `%.1f`, the share of the successes in a total that is not 0, in percent, and with
-- `%.2f` a number of bytes in kilobytes.
abbrev pub success_rate : (ℕ → ℕ → Bytes) → ℕ → ℕ → Bytes
success_rate percent success total = if total == 0 then codes "0.0" else percent success total

abbrev pub requests_line : (ℕ → ℕ → Bytes) → ℕ → ℕ → ℕ → Bytes
requests_line percent total success failed =
    codes "Requests: total="
    ++ (print_u64 total
        ++ (codes " success="
            ++ (print_u64 success
                ++ (codes " failed="
                    ++ (print_u64 failed
                        ++ (codes " ("
                            ++ (success_rate percent success total ++ codes "% success)")))))))

abbrev pub latency_line : ℕ → ℕ → ℕ → Bytes
latency_line avg low high =
    codes "Latency: avg="
    ++ (print_u64 avg
        ++ (codes "us min="
            ++ (print_u64 low ++ (codes "us max=" ++ (print_u64 high ++ codes "us")))))

abbrev pub events_line : (ℕ → Bytes) → ℕ → ℕ → ℕ → Bytes
events_line kilobytes events received reconnects =
    codes "Events processed: "
    ++ (print_u64 events
        ++ (codes " | Bytes received: "
            ++ (kilobytes received ++ (codes " KB | WS reconnects: " ++ print_u64 reconnects))))

unfoldable pub metrics_log : (ℕ → ℕ → Bytes) → (ℕ → Bytes) → Metrics → List Bytes
unfolding avg_latency_us printed_min
metrics_log percent kilobytes m =
    codes "=== METRICS ==="
    ∷ requests_line percent m.requests_total m.requests_success m.requests_failed
    ∷ latency_line (avg_latency_us m) (printed_min m) m.latency_max_us
    ∷ events_line kilobytes m.events_processed m.bytes_received m.ws_reconnects
    ∷ []
