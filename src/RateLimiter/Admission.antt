-- ===== src/RateLimiter/Admission.antt =====
-- How many requests the limiter lets through.
use yurei_jsonrpc_client.Prelude.{
  ap, ℕ, ◌+◌, ◌-◌, ◌*◌, ◌≤◌, ◌≡◌, ◌≢◌, true, if◌then◌else◌, some, List, [], ◌∷◌, arith,
}
use yurei_jsonrpc_client.RateLimiter.{RateLimiter, nano, init, refill_tokens, try_acquire}

-- The bucket is never fuller than its bound, which is two seconds' worth of tokens.
pub record IsValid (rl : RateLimiter) : Type 0 where
  pub tokens_le : rl.tokens ≤ rl.max_tokens
  pub burst : rl.max_tokens ≡ rl.tokens_per_second * nano * 2

pub init-IsValid : (rps now : ℕ) {rl : RateLimiter} → init rps now true ≡ some rl → IsValid rl
unfolding init
init-IsValid rps now e = ground arith

pub refill_tokens-IsValid :
    (now : ℕ) {rl : RateLimiter} → IsValid rl → IsValid (refill_tokens now rl)
unfolding refill_tokens
refill_tokens-IsValid now v = ground arith

pub try_acquire-IsValid : (now : ℕ) {rl : RateLimiter} → IsValid rl → IsValid (try_acquire now rl).1
unfolding try_acquire
try_acquire-IsValid now v = ground arith

-- Calls of `yurei_rate_limiter_try_acquire`, each some nanoseconds after the refill before it: the
-- number that succeeded, and the limiter afterwards.
unfoldable pub acquire_all : List ℕ → RateLimiter → ℕ × RateLimiter
acquire_all [] rl = (0, rl)
acquire_all (gap ∷ gaps) rl =
    let (granted, rl') = try_acquire (rl.last_refill + gap) rl in
    let (n, rl'') = acquire_all gaps rl' in ((if granted then 1 else 0) + n, rl'')

abbrev pub total : List ℕ → ℕ
total [] = 0
total (x ∷ xs) = x + total xs

-- What one call takes and leaves, in units.
acquire_step :
    (gap : ℕ) (rl : RateLimiter)
    → rl.tokens_per_second ≢ 0
    → let (granted, rl') = try_acquire (rl.last_refill + gap) rl in
      (((if granted then 1 else 0) * nano + rl'.tokens ≤ rl.tokens + gap * rl.tokens_per_second)
        × (rl'.tokens_per_second ≡ rl.tokens_per_second))
unfolding try_acquire
acquire_step gap rl on =
    let elapsed : (rl.last_refill + gap - rl.last_refill) * rl.tokens_per_second
        ≡ gap * rl.tokens_per_second =
      ap (λ (t : ℕ). t * rl.tokens_per_second) (omega arith) in
    ground arith

acquire_all-le :
    (gaps : List ℕ) (rl : RateLimiter)
    → rl.tokens_per_second ≢ 0
    → (acquire_all gaps rl).0 * nano + (acquire_all gaps rl).1.tokens
      ≤ rl.tokens + total gaps * rl.tokens_per_second
unfolding acquire_all
acquire_all-le [] rl on = omega arith
acquire_all-le (gap ∷ gaps) rl on =
    let step = acquire_step gap rl on in
    let rl' : RateLimiter = (try_acquire (rl.last_refill + gap) rl).1 in
    let later = acquire_all-le gaps rl' (rw step.1 on) in
    let rate : total gaps * rl'.tokens_per_second ≡ total gaps * rl.tokens_per_second =
      ap (λ (t : ℕ). total gaps * t) step.1 in
    omega arith

-- Over any run of calls of try_acquire from a valid limiter that is on, the requests let through
-- are at most the burst of two seconds' worth and the rate times the time that passed.
pub acquire_all-burst :
    (gaps : List ℕ) (rl : RateLimiter)
    → IsValid rl
    → rl.tokens_per_second ≢ 0
    → (acquire_all gaps rl).0 * nano ≤ (2 * nano + total gaps) * rl.tokens_per_second
acquire_all-burst gaps rl v on = omega (arith, acquire_all-le gaps rl on)

-- A valid limiter that is on lets a request through when the time since the last refill is worth a
-- token, and takes that token; one that is off lets every request through and keeps no count.
pub try_acquire-grants :
    (gap : ℕ) (rl : RateLimiter)
    → IsValid rl
    → (rl.tokens_per_second ≢ 0
        → nano ≤ rl.tokens + gap * rl.tokens_per_second
        → ((try_acquire (rl.last_refill + gap) rl).0 ≡ true)
          × ((try_acquire (rl.last_refill + gap) rl).1.tokens + nano ≤ rl.max_tokens))
      × (rl.tokens_per_second ≡ 0 → try_acquire (rl.last_refill + gap) rl ≡ (true, rl))
unfolding try_acquire
try_acquire-grants gap rl v =
    let elapsed : (rl.last_refill + gap - rl.last_refill) * rl.tokens_per_second
        ≡ gap * rl.tokens_per_second =
      ap (λ (t : ℕ). t * rl.tokens_per_second) (omega arith) in
    (λ on enough. ground arith, λ off. ground arith)
