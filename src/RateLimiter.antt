-- ===== src/RateLimiter.antt =====
-- src/rate_limiter.c and include/rate_limiter.h: the token bucket that bounds the requests of the
-- HTTP poller. The doubles are exact multiples of 10^-9 here: a token is 10^9 units and the clock
-- counts nanoseconds, so `elapsed * tokens_per_second` is a whole number of units. The rounding of
-- doubles is not modelled.
pub mod Admission
pub mod Waiting
pub mod Paced
mod Tests
use yurei_jsonrpc_client.Prelude.{
  ℕ, ◌+◌, ◌-◌, ◌*◌, ◌/◌, Bool, true, false, not, leb, ltb, ◌==◌, if◌then◌else◌, Option, none, some,
  List, [], ◌∷◌,
}

pub record RateLimiter : Type 0 where
  pub tokens_per_second : ℕ
  pub tokens : ℕ
  pub max_tokens : ℕ
  pub last_refill : ℕ

-- One token, and one second, in units.
abbrev pub nano : ℕ
nano = 1_000_000_000

-- `yurei_rate_limiter_init` at a reading of the clock; the flag says whether `pthread_mutex_init`
-- succeeded.
unfoldable pub init : ℕ → ℕ → Bool → Option RateLimiter
init rps now mutex_ready =
    if mutex_ready
    then some (record {
      tokens_per_second = rps;
      tokens = rps * nano * 2;
      max_tokens = rps * nano * 2;
      last_refill = now;
    })
    else none

-- `if (tokens > max_tokens) tokens = max_tokens`
abbrev pub capped : ℕ → ℕ → ℕ
capped tokens max_tokens = if ltb max_tokens tokens then max_tokens else tokens

-- `refill_tokens` at a reading of the clock.
unfoldable pub refill_tokens : ℕ → RateLimiter → RateLimiter
refill_tokens now rl = record rl {
  tokens = capped (rl.tokens + (now - rl.last_refill) * rl.tokens_per_second) rl.max_tokens;
  last_refill = now;
}

abbrev pub take_token : RateLimiter → RateLimiter
take_token rl = record rl { tokens = rl.tokens - nano }

-- `yurei_rate_limiter_try_acquire`.
unfoldable pub try_acquire : ℕ → RateLimiter → Bool × RateLimiter
unfolding refill_tokens
try_acquire now rl =
    if rl.tokens_per_second == 0
    then (true, rl)
    else (let rl' = refill_tokens now rl in
        if leb nano rl'.tokens then (true, take_token rl') else (false, rl'))

-- The clamped sleep of `yurei_rate_limiter_wait`, in microseconds.
unfoldable pub sleep_us : RateLimiter → ℕ
sleep_us rl =
    let wanted = (nano - rl.tokens) / (rl.tokens_per_second * 1000) in
    if ltb wanted 1000 then 1000 else if ltb 100000 wanted then 100000 else wanted

-- The loop of `yurei_rate_limiter_wait`. Each call of `usleep` takes at least its time; the list says
-- how many nanoseconds more, round by round. `none` means that the list ended first. The result is
-- the time of the return and the limiter.
unfoldable pub wait_loop : List ℕ → ℕ → RateLimiter → Option (ℕ × RateLimiter)
wait_loop [] now rl =
    let rl' = refill_tokens now rl in
    if leb nano rl'.tokens then some (now, take_token rl') else none
wait_loop (extra ∷ later) now rl =
    let rl' = refill_tokens now rl in
    let slept = wait_loop later (now + (sleep_us rl' * 1000 + extra)) rl' in
    if leb nano rl'.tokens then some (now, take_token rl') else slept

unfoldable pub wait : List ℕ → ℕ → RateLimiter → Option (ℕ × RateLimiter)
wait oversleeps now rl =
    if rl.tokens_per_second == 0 then some (now, rl) else wait_loop oversleeps now rl
