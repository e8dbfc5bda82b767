-- ===== src/Metrics/Tests.antt =====
-- Runs of the counters, and their theorems at concrete inputs.
use yurei_jsonrpc_client.Prelude.{
  Bytes, if◌then◌else◌, ◌==◌, ◌&&◌, ◌+◌, ℕ, ◌≤◌, ◌≡◌, refl, true, false, some, none, List, [], ◌∷◌,
  ◌++◌, arith,
}
use yurei_jsonrpc_client.Metrics.{Metrics, Attempt, init, lower_min, metrics_log}
use yurei_jsonrpc_client.Metrics.Extremes.{quiet, lower_min-le, lower_min-ends}
use yurei_jsonrpc_client.Metrics.Requests.{
  Use, requested, received, processed, run, requests, successes, failures, Counted, run-Counted,
}
use yurei_jsonrpc_client.Metrics.Report.{report, run-report}
use yurei_jsonrpc_client.CString.{codes, print_u64, digits_reversed, reverse_onto}

-- Another thread stores 40 before the first attempt, and the second one fails for no reason.
abbrev contended : List Attempt
contended =
    record { stored = some 40; spurious = false }
    ∷ record { stored = none; spurious = true }
    ∷ quiet
    ∷ []

lowered : lower_min contended 90 90 30 ≡ some 30
unfolding lower_min
lowered = refl

outrun : lower_min contended 90 90 50 ≡ some 40
unfolding lower_min
outrun = refl

lowered_bounds : (30 ≤ 30) × (30 ≤ 90)
lowered_bounds = lower_min-le contended 90 90 30 (omega arith) (omega arith) lowered

lowered_at_last :
    (r : ℕ) × (lower_min
        ((record { stored = some 40; spurious = false } ∷ []) ++ quiet ∷ [])
        90
        90
        30
      ≡ some r)
lowered_at_last = lower_min-ends (record { stored = some 40; spurious = false } ∷ []) [] 90 30

abbrev uses : List Use
uses =
    requested true 30
    ∷ received 2048
    ∷ processed
    ∷ requested false 50
    ∷ processed
    ∷ requested true 10
    ∷ []

uses-Counted : (m : Metrics) × (run uses init ≡ some m) × Counted uses init m
uses-Counted = run-Counted uses init (omega arith)

-- The two texts of doubles that the example needs.
abbrev percent : ℕ → ℕ → Bytes
percent success total = if success == 2 && total == 3 then codes "66.7" else codes "100.0"

abbrev kilobytes : ℕ → Bytes
kilobytes n = if n == 2048 then codes "2.00" else codes "0.00"

run-report_example :
    (m : Metrics) × (run uses init ≡ some m)
    × (metrics_log percent kilobytes m ≡ report percent kilobytes uses)
    × (requests uses ≡ successes uses + failures uses)
run-report_example = run-report percent kilobytes uses (omega arith)

shown_report :
    report percent kilobytes uses
    ≡ codes "=== METRICS ==="
      ∷ codes "Requests: total=3 success=2 failed=1 (66.7% success)"
      ∷ codes "Latency: avg=30us min=10us max=50us"
      ∷ codes "Events processed: 2 | Bytes received: 2.00 KB | WS reconnects: 0"
      ∷ []
unfolding print_u64 digits_reversed reverse_onto
shown_report = refl
