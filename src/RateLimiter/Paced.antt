-- ===== src/RateLimiter/Paced.antt =====
-- How many waits return in a time.
use yurei_jsonrpc_client.Prelude.{
  suc, [], ◌>>=◌, ◌==◌, false, bind_some, ◌∙◌, ◌∷◌, eq_of_some, subst, inr, inl, length, leb, ◌≢◌,
  Option, Bool-cases, ap, refl, ◌-◌, some, ◌*◌, arith, ◌≡◌, ◌+◌, ◌≤◌, List, ℕ,
}
use yurei_jsonrpc_client.RateLimiter.{
  sleep_us, RateLimiter, nano, refill_tokens, take_token, wait_loop, wait,
}
use yurei_jsonrpc_client.RateLimiter.Admission.{IsValid, refill_tokens-IsValid}

-- A refill gains at most the rate times the time that passed.
refill_tokens-le :
    (now : ℕ) (rl : RateLimiter)
    → rl.last_refill ≤ now
    → (refill_tokens now rl).tokens + rl.last_refill * rl.tokens_per_second
      ≤ rl.tokens + now * rl.tokens_per_second
unfolding refill_tokens
refill_tokens-le now rl h =
    let passed : (rl.last_refill + (now - rl.last_refill)) * rl.tokens_per_second
        ≡ now * rl.tokens_per_second =
      ap (λ (t : ℕ). t * rl.tokens_per_second) (omega arith) in
    ground arith

-- A wait that began not before the last refill, and took a token.
pub record Took (rl : RateLimiter) (now at : ℕ) (rl' : RateLimiter) : Type 0 where
  pub valid : IsValid rl'
  pub not_before : now ≤ at
  pub refilled : rl'.last_refill ≡ at
  pub same_rate : rl'.tokens_per_second ≡ rl.tokens_per_second
  pub paid :
      rl'.tokens + nano + rl.last_refill * rl.tokens_per_second
      ≤ rl.tokens + at * rl.tokens_per_second

take_token-Took :
    (now : ℕ) (rl : RateLimiter)
    → IsValid rl
    → rl.last_refill ≤ now
    → nano ≤ (refill_tokens now rl).tokens
    → Took rl now now (take_token (refill_tokens now rl))
take_token-Took now rl v h enough =
    let v' = refill_tokens-IsValid now v in
    let gained = refill_tokens-le now rl h in
    record {
      valid = record { tokens_le = omega (arith, v'.tokens_le); burst = v'.burst };
      not_before = omega arith;
      refilled = unfold refill_tokens in refl;
      same_rate = unfold refill_tokens in refl;
      paid = omega arith;
    }

-- A wait after a refill that did not give enough.
Took-later :
    (now later at : ℕ) (rl rl' : RateLimiter)
    → rl.last_refill ≤ now
    → now ≤ later
    → Took (refill_tokens now rl) later at rl'
    → Took rl now at rl'
Took-later now later at rl rl' h order t =
    let gained = refill_tokens-le now rl h in
    record {
      valid = t.valid;
      not_before = omega (arith, t.not_before);
      refilled = t.refilled;
      same_rate = unfold refill_tokens in t.same_rate;
      paid =
          let paid : rl'.tokens + nano + now * rl.tokens_per_second
              ≤ (refill_tokens now rl).tokens + at * rl.tokens_per_second =
            unfold refill_tokens in t.paid in
          omega arith;
    }

wait_loop-Took :
    (sleeps : List ℕ) (now : ℕ) (rl : RateLimiter) {at : ℕ} {rl' : RateLimiter}
    → IsValid rl
    → rl.last_refill ≤ now
    → wait_loop sleeps now rl ≡ some (at, rl')
    → Took rl now at rl'
unfolding wait_loop
wait_loop-Took [] now rl v h r = elim (Bool-cases (leb nano (refill_tokens now rl).tokens)) [
  | inl enough ↦
      subst (λ (s : ℕ × RateLimiter). Took rl now s.0 s.1) (eq_of_some (rw enough at r))
        (take_token-Took now rl v h (ground arith))
  | inr low ↦ let stuck = rw low at r in cc
]
wait_loop-Took (extra ∷ later) now rl {at} {rl'} v h r =
    elim (Bool-cases (leb nano (refill_tokens now rl).tokens)) [
      | inl enough ↦
          subst (λ (s : ℕ × RateLimiter). Took rl now s.0 s.1) (eq_of_some (rw enough at r))
            (take_token-Took now rl v h (ground arith))
      | inr low ↦
          let rl1 : RateLimiter = refill_tokens now rl in
          let woken : ℕ = now + (sleep_us rl1 * 1000 + extra) in
          let refilled : rl1.last_refill ≡ now = unfold refill_tokens in refl in
          Took-later now woken at rl rl' h (omega arith) (
            wait_loop-Took later woken rl1 (refill_tokens-IsValid now v) (omega arith)
              (rw low at r))
    ]

-- Calls of `yurei_rate_limiter_wait`, one after the other, each some nanoseconds after the return of the
-- one before, with what the sleeps take beyond their times. `none` means that a list of these ended.
unfoldable pub wait_all : List (ℕ × List ℕ) → RateLimiter → Option RateLimiter
wait_all [] rl = some rl
wait_all ((gap, sleeps) ∷ calls) rl = do
  (at, rl') ← wait sleeps (rl.last_refill + gap) rl
  wait_all calls rl'

-- A whole wait, some nanoseconds after the last refill.
pub wait-Took :
    (sleeps : List ℕ) (gap : ℕ) (rl : RateLimiter) {at : ℕ} {rl' : RateLimiter}
    → IsValid rl
    → rl.tokens_per_second ≢ 0
    → wait sleeps (rl.last_refill + gap) rl ≡ some (at, rl')
    → Took rl (rl.last_refill + gap) at rl'
unfolding wait
wait-Took sleeps gap rl v on r =
    let off : (rl.tokens_per_second == 0) ≡ false = ground arith in
    wait_loop-Took sleeps (rl.last_refill + gap) rl v (omega arith) (rw off at r)

-- What waits have taken.
pub record Paid (calls : ℕ) (rl rl' : RateLimiter) : Type 0 where
  pub valid : IsValid rl'
  pub later : rl.last_refill ≤ rl'.last_refill
  pub same_rate : rl'.tokens_per_second ≡ rl.tokens_per_second
  pub paid :
      rl'.tokens + calls * nano + rl.last_refill * rl.tokens_per_second
      ≤ rl.tokens + rl'.last_refill * rl.tokens_per_second

pub Paid-zero : (rl : RateLimiter) → IsValid rl → Paid 0 rl rl
Paid-zero rl v = record { valid = v; later = omega arith; same_rate = refl; paid = omega arith }

pub Paid-suc :
    (calls gap at : ℕ) (rl rl1 rl' : RateLimiter)
    → Took rl (rl.last_refill + gap) at rl1
    → Paid calls rl1 rl'
    → Paid (suc calls) rl rl'
Paid-suc calls gap at rl rl1 rl' t p =
    let paid = rw (t.same_rate, t.refilled) at p.paid in
    record {
      valid = p.valid;
      later = omega (arith, p.later, t.refilled, t.not_before);
      same_rate = p.same_rate ∙ t.same_rate;
      paid = omega (arith, t.paid, paid);
    }

-- The number of waits is bounded by the burst and the time.
pub Paid-burst :
    (calls : ℕ) (rl rl' : RateLimiter)
    → IsValid rl
    → Paid calls rl rl'
    → calls * nano ≤ (2 * nano + (rl'.last_refill - rl.last_refill)) * rl.tokens_per_second
Paid-burst calls rl rl' v p =
    let passed : (rl.last_refill + (rl'.last_refill - rl.last_refill)) * rl.tokens_per_second
        ≡ rl'.last_refill * rl.tokens_per_second =
      ap (λ (t : ℕ). t * rl.tokens_per_second) (omega (arith, p.later)) in
    omega (arith, p.paid)

wait_all-Paid :
    (calls : List (ℕ × List ℕ)) (rl : RateLimiter) {rl' : RateLimiter}
    → IsValid rl
    → rl.tokens_per_second ≢ 0
    → wait_all calls rl ≡ some rl'
    → Paid (length calls) rl rl'
unfolding wait_all
wait_all-Paid [] rl v on r = subst (Paid 0 rl) (eq_of_some r) (Paid-zero rl v)
wait_all-Paid ((gap, sleeps) ∷ calls) rl {rl'} v on r =
    let ((at, rl1), ok, rest) = bind_some (wait sleeps (rl.last_refill + gap) rl) r in
    let t = wait-Took sleeps gap rl v on ok in
    Paid-suc (length calls) gap at rl rl1 rl' t
      (wait_all-Paid calls rl1 t.valid (omega (arith, t.same_rate)) rest)

-- Over any run of waits that return, one after the other, on a valid limiter that is on, the
-- number of waits is at most the burst of two seconds' worth and the rate times the time from the
-- last refill before to the return of the last wait, and that time is not negative.
pub wait_all-paced :
    (calls : List (ℕ × List ℕ)) (rl : RateLimiter) {rl' : RateLimiter}
    → IsValid rl
    → rl.tokens_per_second ≢ 0
    → wait_all calls rl ≡ some rl'
    → (rl.last_refill ≤ rl'.last_refill)
      × (length calls * nano
          ≤ (2 * nano + (rl'.last_refill - rl.last_refill)) * rl.tokens_per_second)
wait_all-paced calls rl {rl'} v on r =
    let p = wait_all-Paid calls rl v on r in (p.later, Paid-burst (length calls) rl rl' v p)
