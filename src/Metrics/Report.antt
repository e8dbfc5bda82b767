-- ===== src/Metrics/Report.antt =====
-- The report of the metrics.
use yurei_jsonrpc_client.Prelude.{
  ap₂, ℕ, ◌+◌, ◌/◌, ◌<◌, ◌≤◌, ◌≡◌, refl, true, false, ◌==◌, if◌then◌else◌, some, List, [], ◌∷◌,
  arith, min, Bytes,
}
use yurei_jsonrpc_client.CString.{codes}
use yurei_jsonrpc_client.Metrics.{
  Metrics, u64_mod, u64_max, init, avg_latency_us, printed_min, requests_line, latency_line,
  events_line, metrics_log,
}
use yurei_jsonrpc_client.Metrics.Requests.{
  Use, requested, received, processed, reconnected, run, requests, successes, failures,
  latency_total, lowest, highest, bytes_total, events, reconnections, Counted, run-Counted,
}

-- The lowest latency, 0 without any request.
abbrev pub lowest_or_zero : List Use → ℕ
lowest_or_zero us = if requests us == 0 then 0 else lowest u64_max us

lowest-le : (us : List Use) (n : ℕ) → lowest n us ≤ n
lowest-le [] n = omega arith
lowest-le (requested success latency ∷ us) n = omega (arith, lowest-le us (min n latency))
lowest-le (received k ∷ us) n = lowest-le us n
lowest-le (processed ∷ us) n = lowest-le us n
lowest-le (reconnected ∷ us) n = lowest-le us n

-- The lowest latency is that of the printed minimum, if the latencies together are below the value
-- that stands for no request.
lowest_shown :
    (us : List Use)
    → latency_total us < u64_max
    → (if lowest u64_max us == u64_max then 0 else lowest u64_max us) ≡ lowest_or_zero us
lowest_shown [] h = refl
lowest_shown (requested success latency ∷ us) h = ground (arith, lowest-le us (min u64_max latency))
lowest_shown (received k ∷ us) h = lowest_shown us h
lowest_shown (processed ∷ us) h = lowest_shown us h
lowest_shown (reconnected ∷ us) h = lowest_shown us h

requests-split : (us : List Use) → requests us ≡ successes us + failures us
requests-split [] = refl
requests-split (requested true latency ∷ us) = omega (arith, requests-split us)
requests-split (requested false latency ∷ us) = omega (arith, requests-split us)
requests-split (received k ∷ us) = requests-split us
requests-split (processed ∷ us) = requests-split us
requests-split (reconnected ∷ us) = requests-split us

-- Nothing that was recorded is beyond 64 bits.
pub record Small (us : List Use) : Type 0 where
  pub requests_small : requests us < u64_mod
  pub latency_small : latency_total us < u64_max
  pub bytes_small : bytes_total us < u64_mod
  pub events_small : events us < u64_mod
  pub reconnections_small : reconnections us < u64_mod

-- The numbers of the report.
record Shown (us : List Use) (m : Metrics) : Type 0 where
  total_is : m.requests_total ≡ requests us
  success_is : m.requests_success ≡ successes us
  failed_is : m.requests_failed ≡ failures us
  average_is : avg_latency_us m ≡ latency_total us / requests us
  lowest_is : printed_min m ≡ lowest_or_zero us
  highest_is : m.latency_max_us ≡ highest 0 us
  events_is : m.events_processed ≡ events us
  bytes_is : m.bytes_received ≡ bytes_total us
  reconnects_is : m.ws_reconnects ≡ reconnections us

average_lem : (s n t k : ℕ) → s ≡ t → n ≡ k → (if n == 0 then 0 else s / n) ≡ t / k
average_lem s n t k e h = ground (arith, ap₂ ◌/◌ e h)

Counted-Shown : (us : List Use) (m : Metrics) → Small us → Counted us init m → Shown us m
unfolding avg_latency_us printed_min
Counted-Shown us m small c =
    let split = requests-split us in
    record {
      total_is = omega (arith, c.total_is, small.requests_small);
      success_is = omega (arith, c.success_is, small.requests_small, split);
      failed_is = omega (arith, c.failed_is, small.requests_small, split);
      average_is =
          average_lem m.latency_sum_us m.latency_count (latency_total us) (requests us)
            (omega (arith, c.sum_is, small.latency_small))
            (omega (arith, c.count_is, small.requests_small));
      lowest_is = rw c.min_is (lowest_shown us small.latency_small);
      highest_is = c.max_is;
      events_is = omega (arith, c.events_is, small.events_small);
      bytes_is = omega (arith, c.bytes_is, small.bytes_small);
      reconnects_is = omega (arith, c.reconnects_is, small.reconnections_small);
    }

module _ (percent : ℕ → ℕ → Bytes) (kilobytes : ℕ → Bytes) where
  -- The report of what was recorded.
  abbrev pub report : List Use → List Bytes
  report us =
      codes "=== METRICS ==="
      ∷ requests_line percent (requests us) (successes us) (failures us)
      ∷ latency_line (latency_total us / requests us) (lowest_or_zero us) (highest 0 us)
      ∷ events_line kilobytes (events us) (bytes_total us) (reconnections us)
      ∷ []

  metrics_log-Shown :
      (us : List Use) (m : Metrics) → Shown us m → metrics_log percent kilobytes m ≡ report us
  unfolding metrics_log
  metrics_log-Shown us m s =
      rw
        (
          s.total_is, s.success_is, s.failed_is, s.average_is, s.lowest_is, s.highest_is,
          s.events_is, s.bytes_is, s.reconnects_is,
        )
        refl

  -- While nothing overflows, and with no other thread at the extremes, the calls of one thread
  -- that record requests, bytes, events and reconnections from the start on return, and the report
  -- then shows their numbers, the requests as the successes and the failures, and the average, the
  -- lowest and the highest latency, 0 for each without any request.
  pub run-report :
      (us : List Use)
      → Small us
      → (m : Metrics) × (run us init ≡ some m)
        × (metrics_log percent kilobytes m ≡ report us)
        × (requests us ≡ successes us + failures us)
  run-report us small =
      let (m, returned, c) = run-Counted us init (omega arith) in
      (m, returned, metrics_log-Shown us m (Counted-Shown us m small c), requests-split us)
