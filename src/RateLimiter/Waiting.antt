-- ===== src/RateLimiter/Waiting.antt =====
-- The blocking wait returns, and with a token.
use yurei_jsonrpc_client.Prelude.{
  refl, dec_lt, ◌⊎◌, ℕ, zero, suc, ◌+◌, ◌-◌, ◌*◌, ◌/◌, ◌≤◌, ◌<◌, ◌≡◌, ◌≢◌, true, false, leb, ltb,
  ◌==◌, if◌then◌else◌, Option, some, List, [], ◌∷◌, arith, inl, inr, length, ap,
}
use yurei_jsonrpc_client.RateLimiter.{
  capped, RateLimiter, nano, refill_tokens, sleep_us, take_token, wait_loop, wait,
}
use yurei_jsonrpc_client.RateLimiter.Admission.{IsValid, refill_tokens-IsValid}

-- A quotient is within one divisor of the dividend.
div_bounds : (d k : ℕ) → 0 < k → (d / k * k ≤ d) × (d < d / k * k + k)
div_bounds d k h = omega arith

clamp_gain :
    (r w d : ℕ)
    → w * (r * 1000) ≤ d
    → d < w * (r * 1000) + r * 1000
    → let us = if ltb w 1000 then 1000 else if ltb 100000 w then 100000 else w in
      (1_000_000 * r ≤ us * 1000 * r)
      × ((100_000_000 * r ≤ us * 1000 * r) ⊎ (d < us * 1000 * r + 1000 * r))
clamp_gain r w d lo hi = elim (dec_lt w 1000) [
  | yes short ↦ let m : w * r ≤ 999 * r = grind arith in (ground arith, inr (ground arith))
  | no enough ↦ elim (dec_lt 100000 w) [
    | yes long ↦ (ground arith, inl (ground arith))
    | no between ↦ let m : 1000 * r ≤ w * r = grind arith in (ground arith, inr (ground arith))
  ]
]

-- Units gained over one round of sleep: at least a millisecond's worth, and at least what is missing,
-- up to a tenth of a second's worth and less than a microsecond's worth.
sleep_gain :
    (rl : RateLimiter)
    → rl.tokens_per_second ≢ 0
    → rl.tokens < nano
    → let gain = sleep_us rl * 1000 * rl.tokens_per_second in
      (1_000_000 * rl.tokens_per_second ≤ gain)
      × ((100_000_000 * rl.tokens_per_second ≤ gain)
          ⊎ (nano < rl.tokens + gain + 1000 * rl.tokens_per_second))
unfolding sleep_us
sleep_gain rl on low =
    let k : ℕ = rl.tokens_per_second * 1000 in
    let (lo, hi) = div_bounds (nano - rl.tokens) k (omega arith) in
    let (ms, more) =
      clamp_gain rl.tokens_per_second ((nano - rl.tokens) / k) (nano - rl.tokens) lo hi in
    (ms, elim more [ inl tenth ↦ inl tenth | inr rest ↦ inr (omega arith) ])

-- A return with a token taken, not before the time of the call.
pub record Returned (now : ℕ) (o : Option (ℕ × RateLimiter)) : Type 0 where
  pub at : ℕ
  pub limiter : RateLimiter
  pub result : o ≡ some (at, limiter)
  pub not_before : now ≤ at
  pub took : limiter.tokens + nano ≤ limiter.max_tokens

-- The tokens that a round finds.
abbrev found : ℕ → RateLimiter → ℕ
found now rl = (refill_tokens now rl).tokens

returns_now :
    (extras : List ℕ) (now : ℕ) (rl : RateLimiter)
    → IsValid rl
    → nano ≤ found now rl
    → Returned now (wait_loop extras now rl)
returns_now extras now rl v h = record {
  at = now;
  limiter = take_token (refill_tokens now rl);
  result = ends extras;
  not_before = omega arith;
  took = let v' = refill_tokens-IsValid now v in omega (arith, v'.tokens_le);
}
  where
    enough : leb nano (found now rl) ≡ true
    enough = ground arith

    ends : (l : List ℕ) → wait_loop l now rl ≡ some (now, take_token (refill_tokens now rl))
    ends [] = unfold wait_loop in rw enough
    ends (x ∷ xs) = unfold wait_loop in rw enough

-- What the cap leaves of a gain.
capped_cases :
    (t gain x m : ℕ)
    → nano ≤ m
    → (nano ≤ capped (t + (gain + x)) m) ⊎ (t + gain ≤ capped (t + (gain + x)) m)
capped_cases t gain x m h = ground arith

found_after :
    (now d : ℕ) (rl : RateLimiter)
    → found (now + d) (refill_tokens now rl)
      ≡ capped (found now rl + d * rl.tokens_per_second) rl.max_tokens
unfolding refill_tokens
found_after now d rl = let e : now + d - now ≡ d = omega arith in rw e

-- The next round finds enough, or what was there and what the sleep gained.
found_next :
    (now x : ℕ) (rl : RateLimiter)
    → IsValid rl
    → rl.tokens_per_second ≢ 0
    → let rl' = refill_tokens now rl in
      let later = now + (sleep_us rl' * 1000 + x) in
      (nano ≤ found later rl')
      ⊎ (found now rl + sleep_us rl' * 1000 * rl.tokens_per_second ≤ found later rl')
found_next now x rl v on =
    let r : ℕ = rl.tokens_per_second in
    let us : ℕ = sleep_us (refill_tokens now rl) in
    let gain : (us * 1000 + x) * r ≡ us * 1000 * r + x * r = omega arith in
    rw (found_after now (us * 1000 + x) rl, gain)
      (capped_cases (found now rl) (us * 1000 * r) (x * r) rl.max_tokens (omega arith))

-- One more round, when this one does not find a token.
returns_later :
    (x : ℕ) (xs : List ℕ) (now : ℕ) (rl : RateLimiter)
    → found now rl < nano
    → let rl' = refill_tokens now rl in
      let later = now + (sleep_us rl' * 1000 + x) in
      Returned later (wait_loop xs later rl') → Returned now (wait_loop (x ∷ xs) now rl)
returns_later x xs now rl low r = record {
  at = r.at;
  limiter = r.limiter;
  result = unfold wait_loop in rw missing r.result;
  not_before = omega (arith, r.not_before);
  took = r.took;
}
  where
    missing : leb nano (found now rl) ≡ false
    missing = ground arith

rate_same :
    (now : ℕ) (rl : RateLimiter) → (refill_tokens now rl).tokens_per_second ≡ rl.tokens_per_second
unfolding refill_tokens
rate_same now rl = refl

rate_on :
    (now : ℕ) (rl : RateLimiter)
    → rl.tokens_per_second ≢ 0
    → (refill_tokens now rl).tokens_per_second ≢ 0
rate_on now rl on = omega (arith, rate_same now rl)

-- A millisecond's worth is missing at most: one sleep is enough.
returns_soon :
    (extras : List ℕ) (now : ℕ) (rl : RateLimiter)
    → IsValid rl
    → rl.tokens_per_second ≢ 0
    → 1 ≤ length extras
    → nano ≤ found now rl + 1_000_000 * rl.tokens_per_second
    → Returned now (wait_loop extras now rl)
returns_soon [] now rl v on long h = absurd (omega arith)
returns_soon (x ∷ xs) now rl v on long h = elim (dec_lt (found now rl) nano) [
  | no enough ↦ returns_now (x ∷ xs) now rl v (omega arith)
  | yes low ↦
      let rl' : RateLimiter = refill_tokens now rl in
      let gain = sleep_gain rl' (rate_on now rl on) low in
      let next = found_next now x rl v on in
      let same = rate_same now rl in
      let all' = ap (λ (t : ℕ). sleep_us rl' * 1000 * t) same in
      returns_later x xs now rl low (
        returns_now xs (now + (sleep_us rl' * 1000 + x)) rl' (refill_tokens-IsValid now v)
          (omega arith))
]

-- `k` tenths of a second's worth, and one more, are missing at most.
returns_after :
    (k : ℕ) (extras : List ℕ) (now : ℕ) (rl : RateLimiter)
    → IsValid rl
    → rl.tokens_per_second ≢ 0
    → k + 1 ≤ length extras
    → nano ≤ found now rl + (k * 100_000_000 + 1_000_000) * rl.tokens_per_second
    → Returned now (wait_loop extras now rl)
returns_after zero extras now rl v on long h =
    returns_soon extras now rl v on (omega arith) (omega arith)
returns_after (suc k) [] now rl v on long h = absurd (omega arith)
returns_after (suc k) (x ∷ xs) now rl v on long h = elim (dec_lt (found now rl) nano) [
  | no enough ↦ returns_now (x ∷ xs) now rl v (omega arith)
  | yes low ↦
      let rl' : RateLimiter = refill_tokens now rl in
      let gain = sleep_gain rl' (rate_on now rl on) low in
      let next = found_next now x rl v on in
      let same = rate_same now rl in
      let all' = ap (λ (t : ℕ). sleep_us rl' * 1000 * t) same in
      let worth = ap (λ (t : ℕ). k * t) same in
      let some_more : 0 ≤ k * rl.tokens_per_second = omega arith in
      returns_later x xs now rl low (
        returns_after k xs (now + (sleep_us rl' * 1000 + x)) rl' (refill_tokens-IsValid now v)
          (rate_on now rl on) (omega arith) (omega arith))
]

-- The wait of a valid limiter that is on returns after at most eleven sleeps, however long each
-- takes beyond its time: not before the call, and with a token taken.
pub wait-returns :
    (oversleeps : List ℕ) (now : ℕ) (rl : RateLimiter)
    → IsValid rl
    → rl.tokens_per_second ≢ 0
    → 11 ≤ length oversleeps
    → Returned now (wait oversleeps now rl)
unfolding wait
wait-returns oversleeps now rl v on long =
    let off : (rl.tokens_per_second == 0) ≡ false = ground arith in
    rw off (returns_after 10 oversleeps now rl v on long (omega arith))
