-- ===== src/HttpPoller/Paced.antt =====
-- How many requests the poller sends in a time, and its pauses.
use yurei_jsonrpc_client.HttpPoller.Request.{build_payload}
use yurei_jsonrpc_client.Prelude.{
  append_assoc, length-append, append-nil, ◌∙◌, sym, [], ◌-◌, ◌≤◌, ap, ◌^◌, ◌%◌, ◌*◌, Option-cases,
  refl, replicate, inr, inl, eq_of_some, ◌++◌, ◌&&◌, subst, ◌∷◌, ◌+◌, none, true, false, ◌≢◌,
  length, Bool-cases, bind_some, some, List, ℕ, Bytes, arith, ◌≡◌,
}
use yurei_jsonrpc_client.Config.Fields.{Config}
use yurei_jsonrpc_client.CString.{until_nul}
use yurei_jsonrpc_client.Parser.Json.{CJson}
use yurei_jsonrpc_client.Parser.Message.{Handled, handle_message}
use yurei_jsonrpc_client.EventQueue.Ring.{Schedule}
use yurei_jsonrpc_client.RateLimiter.{RateLimiter, nano, wait}
use yurei_jsonrpc_client.RateLimiter.Admission.{IsValid}
use yurei_jsonrpc_client.RateLimiter.Paced.{Took, Paid, Paid-zero, Paid-suc, Paid-burst, wait-Took}
use yurei_jsonrpc_client.HttpPoller.{
  Poller, Exchange, limited, metered, take_result, receive, failed_round, message_round,
  transfer_round, poll_round, poll_loop, poller_thread,
}

-- What a round up to its pause leaves alone.
record Same (p p' : Poller) : Type 0 where
  limiter : p'.rate_limiter ≡ p.rate_limiter
  sent : p'.sent ≡ p.sent
  slept : p'.slept ≡ p.slept

take_result-Same : (h : Handled) (p : Poller) → Same p (take_result h p)
unfolding take_result
take_result-Same h p = ground arith

module _ (json : CJson) (config : Config) where
  failed_round-Same :
      (x : Exchange) (times : Schedule) (p : Poller) {p' : Poller} {later : Schedule}
      → failed_round json config x times p ≡ some (p', later)
      → Same p p'
  unfolding failed_round
  failed_round-Same x times p r =
      let (m, ok, rest) = bind_some (metered x false none p.metrics) r in
      subst (λ (s : Poller × Schedule). Same p s.0) (eq_of_some rest)
        (record { limiter = refl; sent = refl; slept = refl })

  message_round-Same :
      (x : Exchange) (text : Bytes) (times : Schedule) (p : Poller) {p' : Poller} {later : Schedule}
      → message_round json config x text times p ≡ some (p', later)
      → Same p p'
  unfolding message_round
  message_round-Same x text times p r =
      let (m, ok, next) = bind_some (metered x true (some (length text)) p.metrics) r in
      let (h, handled, rest) =
        bind_some (handle_message json config (until_nul text) p.queue times (some p.last_slot))
          next in
      let a = take_result-Same h (record p { metrics = m }) in
      subst (λ (s : Poller × Schedule). Same p s.0) (eq_of_some rest)
        (record { limiter = a.limiter; sent = a.sent; slept = a.slept })

  transfer_round-Same :
      (x : Exchange) (times : Schedule) (p : Poller) {p' : Poller} {later : Schedule}
      → transfer_round json config x times p ≡ some (p', later)
      → Same p p'
  unfolding transfer_round
  transfer_round-Same x times p r = elim (Bool-cases ((receive x.pieces none).0 && x.completed)) [
    | inl arrived ↦ elim (Option-cases (receive x.pieces none).1) [
      | inl empty ↦ failed_round-Same x times p (rw (arrived, empty) at r)
      | inr (text, got) ↦ message_round-Same x text times p (rw (arrived, got) at r)
    ]
    | inr lost ↦ failed_round-Same x times p (rw lost at r)
  ]

  abbrev pause : ℕ
  pause = config.poll_interval_ms * 1000 % 2 ^ 32

  -- A round from a poller with the limiter `rl`.
  record OneRound (gap : ℕ) (rl : RateLimiter) (p p' : Poller) : Type 0 where
    limiter : RateLimiter
    at : ℕ
    took : Took rl (rl.last_refill + gap) at limiter
    held : p'.rate_limiter ≡ some limiter
    requests : length p'.sent ≡ length p.sent + 1
    pauses : p'.slept ≡ p.slept ++ pause ∷ []

  poll_round-OneRound :
      (x : Exchange) (times : Schedule) (p : Poller) (rl : RateLimiter) {p' : Poller}
      {later : Schedule}
      → p.rate_limiter ≡ some rl
      → IsValid rl
      → rl.tokens_per_second ≢ 0
      → poll_round json config x times p ≡ some (p', later)
      → OneRound x.gap rl p p'
  unfolding poll_round
  poll_round-OneRound x times p rl has v on r =
      let (l, waited, moved) = bind_some (limited x p.rate_limiter) r in
      let ((at, rl1), returned, got) =
        bind_some (wait x.oversleeps (rl.last_refill + x.gap) rl) (rw has at waited) in
      let asked : Poller = record p {
        rate_limiter = l;
        sent = p.sent ++ build_payload config p.last_slot ∷ [];
      } in
      let ((p1, t1), transferred, rested') =
        bind_some (transfer_round json config x times asked) moved in
      let a = transfer_round-Same x times asked transferred in
      subst (λ (s : Poller × Schedule). OneRound x.gap rl p s.0) (eq_of_some rested')
        (record {
          limiter = rl1;
          at = at;
          took = wait-Took x.oversleeps x.gap rl v on returned;
          held = a.limiter ∙ sym (eq_of_some got);
          requests = omega (
            arith,
            ap (λ (l : List Bytes). length l) a.sent,
            length-append p.sent (build_payload config p.last_slot ∷ []),
          );
          pauses = ap (λ (l : List ℕ). l ++ pause ∷ []) a.slept;
        })

  -- `rounds` rounds from a poller with the limiter `rl`.
  record Rounds (rounds : ℕ) (rl : RateLimiter) (p p' : Poller) : Type 0 where
    limiter : RateLimiter
    held : p'.rate_limiter ≡ some limiter
    paid : Paid rounds rl limiter
    requests : length p'.sent ≡ length p.sent + rounds
    pauses : p'.slept ≡ p.slept ++ replicate rounds (pause)

  poll_loop-Rounds :
      (xs : List Exchange) (times : Schedule) (p : Poller) (rl : RateLimiter) {p' : Poller}
      {later : Schedule}
      → p.rate_limiter ≡ some rl
      → IsValid rl
      → rl.tokens_per_second ≢ 0
      → poll_loop json config xs times p ≡ some (p', later)
      → Rounds (length xs) rl p p'
  unfolding poll_loop
  poll_loop-Rounds [] times p rl has v on r =
      subst (λ (s : Poller × Schedule). Rounds 0 rl p s.0) (eq_of_some r)
        (record {
          limiter = rl;
          held = has;
          paid = Paid-zero rl v;
          requests = omega arith;
          pauses = sym (append-nil p.slept);
        })
  poll_loop-Rounds (x ∷ xs) times p rl {p'} has v on r =
      let ((p1, t1), round, rest) = bind_some (poll_round json config x times p) r in
      let a = poll_round-OneRound x times p rl has v on round in
      let b =
        poll_loop-Rounds xs t1 p1 a.limiter a.held a.took.valid (omega (arith, a.took.same_rate))
          rest in
      record {
        limiter = b.limiter;
        held = b.held;
        paid = Paid-suc (length xs) x.gap a.at rl a.limiter b.limiter a.took b.paid;
        requests = omega (arith, a.requests, b.requests);
        pauses =
            b.pauses
            ∙ rw a.pauses (append_assoc p.slept (pause ∷ []) (replicate (length xs) pause));
      }

  -- A poller thread with a valid limiter that is on, which returns after some rounds, whatever the
  -- server answers and the other threads do, has sent as many requests as rounds, at most the
  -- burst of two seconds' worth and the rate times the time from the last refill before to that of
  -- the last round; each round ends with a pause of the poll interval in microseconds, modulo
  -- 2^32.
  pub poller_thread-paced :
      (xs : List Exchange) (times : Schedule) (p : Poller) (rl : RateLimiter) {p' : Poller}
      {later : Schedule}
      → p.rate_limiter ≡ some rl
      → IsValid rl
      → rl.tokens_per_second ≢ 0
      → poller_thread json config true xs times p ≡ some (p', later)
      → (rl' : RateLimiter) × (p'.rate_limiter ≡ some rl')
        × (rl.last_refill ≤ rl'.last_refill)
        × (length p'.sent ≡ length p.sent + length xs)
        × (length xs * nano
            ≤ (2 * nano + (rl'.last_refill - rl.last_refill)) * rl.tokens_per_second)
        × (p'.slept ≡ p.slept ++ replicate (length xs) (config.poll_interval_ms * 1000 % 2 ^ 32))
  unfolding poller_thread
  poller_thread-paced xs times p rl has v on r =
      let a = poll_loop-Rounds xs times p rl has v on r in
      (
        a.limiter,
        a.held,
        a.paid.later,
        a.requests,
        Paid-burst (length xs) rl a.limiter v a.paid,
        a.pauses,
      )
