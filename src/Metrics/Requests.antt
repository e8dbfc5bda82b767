-- ===== src/Metrics/Requests.antt =====
-- What the counters say after any number of requests, answers and events.
use yurei_jsonrpc_client.Prelude.{
  ℕ, ◌+◌, ◌%◌, ◌<◌, ◌≡◌, refl, Bool, true, false, if◌then◌else◌, Option, some, List, [], ◌∷◌, arith,
  min, max, ◌>>=◌,
}
use yurei_jsonrpc_client.Metrics.{
  Metrics, u64_mod, count_request, request, bytes, event, ws_reconnect,
}
use yurei_jsonrpc_client.Metrics.Extremes.{quiet, lower_min-quiet, raise_max-quiet}

-- A call that records something: a request with its success and its latency, the bytes of an answer,
-- an event, or a reconnection.
pub data Use : Type 0 where
  requested : Bool → ℕ → Use
  received : ℕ → Use
  processed reconnected : Use

-- The calls of one thread, one after the other, while no other thread records a request.
abbrev pub record_one : Use → Metrics → Option Metrics
record_one (requested success latency) m = request (quiet ∷ []) (quiet ∷ []) success latency m
record_one (received n) m = some (bytes n m)
record_one processed m = some (event m)
record_one reconnected m = some (ws_reconnect m)

unfoldable pub run : List Use → Metrics → Option Metrics
run [] m = some m
run (u ∷ us) m = do m' ← record_one u m; run us m'

abbrev pub requests : List Use → ℕ
requests [] = 0
requests (requested success latency ∷ us) = 1 + requests us
requests (_ ∷ us) = requests us

abbrev pub successes : List Use → ℕ
successes [] = 0
successes (requested success latency ∷ us) = (if success then 1 else 0) + successes us
successes (_ ∷ us) = successes us

abbrev pub failures : List Use → ℕ
failures [] = 0
failures (requested success latency ∷ us) = (if success then 0 else 1) + failures us
failures (_ ∷ us) = failures us

abbrev pub latency_total : List Use → ℕ
latency_total [] = 0
latency_total (requested success latency ∷ us) = latency + latency_total us
latency_total (_ ∷ us) = latency_total us

abbrev pub lowest : ℕ → List Use → ℕ
lowest n [] = n
lowest n (requested success latency ∷ us) = lowest (min n latency) us
lowest n (_ ∷ us) = lowest n us

abbrev pub highest : ℕ → List Use → ℕ
highest n [] = n
highest n (requested success latency ∷ us) = highest (max n latency) us
highest n (_ ∷ us) = highest n us

abbrev pub bytes_total : List Use → ℕ
bytes_total [] = 0
bytes_total (received n ∷ us) = n + bytes_total us
bytes_total (_ ∷ us) = bytes_total us

abbrev pub events : List Use → ℕ
events [] = 0
events (processed ∷ us) = 1 + events us
events (_ ∷ us) = events us

abbrev pub reconnections : List Use → ℕ
reconnections [] = 0
reconnections (reconnected ∷ us) = 1 + reconnections us
reconnections (_ ∷ us) = reconnections us

-- The counters are 64-bit numbers.
pub record InRange (m : Metrics) : Type 0 where
  pub total_in : m.requests_total < u64_mod
  pub success_in : m.requests_success < u64_mod
  pub failed_in : m.requests_failed < u64_mod
  pub sum_in : m.latency_sum_us < u64_mod
  pub count_in : m.latency_count < u64_mod
  pub bytes_in : m.bytes_received < u64_mod
  pub events_in : m.events_processed < u64_mod
  pub reconnects_in : m.ws_reconnects < u64_mod

-- What a run adds to the counters, modulo 2 ^ 64, and the extremes that it leaves.
pub record Counted (us : List Use) (m m' : Metrics) : Type 0 where
  pub total_is : m'.requests_total ≡ (m.requests_total + requests us) % u64_mod
  pub success_is : m'.requests_success ≡ (m.requests_success + successes us) % u64_mod
  pub failed_is : m'.requests_failed ≡ (m.requests_failed + failures us) % u64_mod
  pub sum_is : m'.latency_sum_us ≡ (m.latency_sum_us + latency_total us) % u64_mod
  pub count_is : m'.latency_count ≡ (m.latency_count + requests us) % u64_mod
  pub min_is : m'.latency_min_us ≡ lowest m.latency_min_us us
  pub max_is : m'.latency_max_us ≡ highest m.latency_max_us us
  pub bytes_is : m'.bytes_received ≡ (m.bytes_received + bytes_total us) % u64_mod
  pub events_is : m'.events_processed ≡ (m.events_processed + events us) % u64_mod
  pub reconnects_is : m'.ws_reconnects ≡ (m.ws_reconnects + reconnections us) % u64_mod

abbrev after_one : Use → Metrics → Metrics
after_one (requested success latency) m =
    let m' = count_request success latency m in
    record m' {
      latency_min_us = min m.latency_min_us latency;
      latency_max_us = max m.latency_max_us latency;
    }
after_one (received n) m = bytes n m
after_one processed m = event m
after_one reconnected m = ws_reconnect m

record_one_lem : (u : Use) (m : Metrics) → record_one u m ≡ some (after_one u m)
unfolding request count_request
record_one_lem (requested success latency) m =
    rw (lower_min-quiet m.latency_min_us latency, raise_max-quiet m.latency_max_us latency)
record_one_lem (received n) m = refl
record_one_lem processed m = refl
record_one_lem reconnected m = refl

after_one-InRange : (u : Use) (m : Metrics) → InRange m → InRange (after_one u m)
unfolding count_request bytes event ws_reconnect
after_one-InRange (requested true latency) m v = omega arith
after_one-InRange (requested false latency) m v = omega arith
after_one-InRange (received n) m v = omega arith
after_one-InRange processed m v = omega arith
after_one-InRange reconnected m v = omega arith

Counted-cons :
    (u : Use) (us : List Use) (m m' : Metrics)
    → Counted us (after_one u m) m'
    → Counted (u ∷ us) m m'
unfolding count_request bytes event ws_reconnect
Counted-cons (requested true latency) us m m' c = ground arith
Counted-cons (requested false latency) us m m' c = ground arith
Counted-cons (received n) us m m' c = ground arith
Counted-cons processed us m m' c = ground arith
Counted-cons reconnected us m m' c = ground arith

-- Calls of one thread that record requests, bytes, events and reconnections on 64-bit counters,
-- with no other thread at the extremes: they return, each counter has grown by what was recorded
-- of its kind, modulo 2^64, and the extremes are the lowest and the highest latency.
pub run-Counted :
    (us : List Use) (m : Metrics)
    → InRange m
    → (m' : Metrics) × (run us m ≡ some m') × Counted us m m'
unfolding run
run-Counted [] m v = (m, refl, omega arith)
run-Counted (u ∷ us) m v =
    let (m', e, c) = run-Counted us (after_one u m) (after_one-InRange u m v) in
    (m', rw (record_one_lem u m) e, Counted-cons u us m m' c)

-- One request, with no other thread at the counters.
pub request-Counted :
    (success : Bool) (latency : ℕ) {m : Metrics}
    → InRange m
    → (m' : Metrics) × (request (quiet ∷ []) (quiet ∷ []) success latency m ≡ some m')
      × Counted (requested success latency ∷ []) m m'
request-Counted success latency {m} v =
    let u : Use = requested success latency in
    let m' = after_one u m in
    (m', record_one_lem u m, Counted-cons u [] m m' (omega (arith, after_one-InRange u m v)))
