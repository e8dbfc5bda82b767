-- ===== src/RateLimiter/Tests.antt =====
-- Runs of the rate limiter, and its theorems at concrete inputs.
use yurei_jsonrpc_client.RateLimiter.Paced.{wait_all-paced, wait_all}
use yurei_jsonrpc_client.Prelude.{
  ◌-◌, ℕ, ◌+◌, ◌*◌, ◌≤◌, ◌≡◌, ◌≢◌, refl, true, some, List, [], ◌∷◌, arith, replicate,
}
use yurei_jsonrpc_client.RateLimiter.{
  RateLimiter, nano, try_acquire, refill_tokens, sleep_us, wait_loop, wait,
}
use yurei_jsonrpc_client.RateLimiter.Admission.{
  IsValid, total, acquire_all, acquire_all-burst, try_acquire-grants,
}
use yurei_jsonrpc_client.RateLimiter.Waiting.{Returned, wait-returns}

-- One request a second, and no token left.
abbrev spent : RateLimiter
spent = record { tokens_per_second = 1; tokens = 0; max_tokens = 2_000_000_000; last_refill = 5 }

spent-IsValid : IsValid spent
spent-IsValid = omega arith

-- The second call comes after half a second, the third after a whole one more.
abbrev gaps : List ℕ
gaps = 0 ∷ 500_000_000 ∷ 1_000_000_000 ∷ []

granted_once : (acquire_all gaps spent).0 ≡ 1
unfolding acquire_all try_acquire
granted_once = refl

waits_a_second :
    wait (replicate 11 0) 5 spent
    ≡ some (1_000_000_005, record spent { tokens = 0; last_refill = 1_000_000_005 })
unfolding wait wait_loop refill_tokens sleep_us
waits_a_second = refl

burst_kept : (acquire_all gaps spent).0 * nano ≤ (2 * nano + total gaps) * 1
burst_kept = acquire_all-burst gaps spent spent-IsValid (omega arith)

grants_after_a_second :
    (◌≢◌ {A = ℕ} 1 0
      → nano ≤ 0 + nano * 1
      → ((try_acquire (5 + nano) spent).0 ≡ true)
        × ((try_acquire (5 + nano) spent).1.tokens + nano ≤ 2_000_000_000))
    × (◌≡◌ {A = ℕ} 1 0 → try_acquire (5 + nano) spent ≡ (true, spent))
grants_after_a_second = try_acquire-grants nano spent spent-IsValid

wait-returns_example : Returned 5 (wait (replicate 11 0) 5 spent)
wait-returns_example =
    wait-returns (replicate 11 0) 5 spent spent-IsValid (omega arith) (omega arith)

-- The second call comes half a second after the return of the first.
abbrev calls : List (ℕ × List ℕ)
calls = (0, replicate 11 0) ∷ (500_000_000, replicate 11 0) ∷ []

waits_twice : wait_all calls spent ≡ some (record spent { last_refill = 2_000_000_005 })
unfolding wait_all wait wait_loop refill_tokens sleep_us
waits_twice = refl

two_waits_paid : (5 ≤ 2_000_000_005) × (2 * nano ≤ (2 * nano + (2_000_000_005 - 5)) * 1)
two_waits_paid = wait_all-paced calls spent spent-IsValid (omega arith) waits_twice
