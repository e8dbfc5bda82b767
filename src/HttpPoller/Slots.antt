-- ===== src/HttpPoller/Slots.antt =====
-- The last slot and the queue over any number of rounds of the poller.
use yurei_jsonrpc_client.CString.{until_nul}
use yurei_jsonrpc_client.HttpPoller.Request.{build_payload}
use yurei_jsonrpc_client.Prelude.{
  if◌then◌else◌, Bool, bind_some, ◌+◌, ◌++◌, length-append, length, ◌&&◌, Bool-cases, ℕ, ◌≤◌, ◌≡◌,
  subst, true, false, none, some, List, [], ◌∷◌, arith, Bytes, Option-cases, inl, inr, eq_of_some,
}
use yurei_jsonrpc_client.Config.Fields.{Config}
use yurei_jsonrpc_client.EventQueue.Ring.{Schedule}
use yurei_jsonrpc_client.EventQueue.Invariant.{IsValid}
use yurei_jsonrpc_client.Parser.Json.{CJson}
use yurei_jsonrpc_client.Parser.Message.{Handled, handle_message}
use yurei_jsonrpc_client.Parser.Bounds.{handle_message-IsValid}
use yurei_jsonrpc_client.HttpPoller.{
  poller_thread, Poller, Exchange, receive, limited, metered, take_result, failed_round,
  message_round, transfer_round, poll_round, poll_loop,
}

-- What rounds may do to the queue and the last slot, and how many requests they send.
pub record Polled (rounds : ℕ) (p p' : Poller) : Type 0 where
  pub valid : IsValid p'.queue
  pub slot_ge : p.last_slot ≤ p'.last_slot
  pub sent_all : length p'.sent ≡ length p.sent + rounds

take_result-Polled : (h : Handled) (p : Poller) → IsValid h.queue → Polled 0 p (take_result h p)
unfolding take_result
take_result-Polled h p v = elim (Option-cases h.code) [
  | inl refused ↦ rw refused (record { valid = v; slot_ge = omega arith; sent_all = omega arith })
  | inr (n, counted) ↦
      rw counted (record { valid = v; slot_ge = ground arith; sent_all = omega arith })
]

module _ (json : CJson) (config : Config) where
  open json use {Item, parse}

  failed_round-Polled :
      (x : Exchange) (times later : Schedule) (p p' : Poller)
      → IsValid p.queue
      → failed_round json config x times p ≡ some (p', later)
      → Polled 0 p p'
  unfolding failed_round
  failed_round-Polled x times later p p' v r =
      let (m, ok, rest) = bind_some (metered x false none p.metrics) r in
      subst (λ (s : Poller × Schedule). Polled 0 p s.0) (eq_of_some rest)
        (record { valid = v; slot_ge = omega arith; sent_all = omega arith })

  message_round-Polled :
      (x : Exchange) (text : Bytes) (times later : Schedule) (p p' : Poller)
      → IsValid p.queue
      → message_round json config x text times p ≡ some (p', later)
      → Polled 0 p p'
  unfolding message_round
  message_round-Polled x text times later p p' v r =
      let (m, ok, next) = bind_some (metered x true (some (length text)) p.metrics) r in
      let (h, handled, rest) =
        bind_some (handle_message json config (until_nul text) p.queue times (some p.last_slot))
          next in
      subst (λ (s : Poller × Schedule). Polled 0 p s.0) (eq_of_some rest)
        (let a =
            take_result-Polled h (record p { metrics = m })
              (handle_message-IsValid json config (until_nul text) p.queue times (some p.last_slot)
                v handled) in
          record { valid = a.valid; slot_ge = a.slot_ge; sent_all = a.sent_all })

  transfer_round-Polled :
      (x : Exchange) (times later : Schedule) (p p' : Poller)
      → IsValid p.queue
      → transfer_round json config x times p ≡ some (p', later)
      → Polled 0 p p'
  unfolding transfer_round
  transfer_round-Polled x times later p p' v r =
      elim (Bool-cases ((receive x.pieces none).0 && x.completed)) [
        | inl arrived ↦ elim (Option-cases (receive x.pieces none).1) [
          | inl empty ↦ failed_round-Polled x times later p p' v (rw (arrived, empty) at r)
          | inr (text, got) ↦
              message_round-Polled x text times later p p' v (rw (arrived, got) at r)
        ]
        | inr lost ↦ failed_round-Polled x times later p p' v (rw lost at r)
      ]

  poll_round-Polled :
      (x : Exchange) (times later : Schedule) (p p' : Poller)
      → IsValid p.queue
      → poll_round json config x times p ≡ some (p', later)
      → Polled 1 p p'
  unfolding poll_round
  poll_round-Polled x times later p p' v r =
      let (rl, ok, rest) = bind_some (limited x p.rate_limiter) r in
      let asked : Poller = record p {
        rate_limiter = rl;
        sent = p.sent ++ build_payload config p.last_slot ∷ [];
      } in
      let ((p1, t1), moved, back) = bind_some (transfer_round json config x times asked) rest in
      let a = transfer_round-Polled x times t1 asked p1 v moved in
      subst (λ (s : Poller × Schedule). Polled 1 p s.0) (eq_of_some back)
        record {
          valid = a.valid;
          slot_ge = a.slot_ge;
          sent_all =
              omega
                (arith, a.sent_all, length-append p.sent (build_payload config p.last_slot ∷ []));
        }

  poll_loop-Polled :
      (xs : List Exchange) (times : Schedule) (p : Poller) {later : Schedule} {p' : Poller}
      → IsValid p.queue
      → poll_loop json config xs times p ≡ some (p', later)
      → Polled (length xs) p p'
  unfolding poll_loop
  poll_loop-Polled [] times p v r =
      subst (λ (s : Poller × Schedule). Polled 0 p s.0) (eq_of_some r)
        (record { valid = v; slot_ge = omega arith; sent_all = omega arith })
  poll_loop-Polled (x ∷ xs) times p v r =
      let ((p1, t1), ok, rest) = bind_some (poll_round json config x times p) r in
      let a = poll_round-Polled x times t1 p p1 v ok in
      let b = poll_loop-Polled xs t1 p1 a.valid rest in
      record {
        valid = b.valid;
        slot_ge = omega (arith, a.slot_ge, b.slot_ge);
        sent_all = omega (arith, a.sent_all, b.sent_all);
      }

  -- A poller thread that ends, on a queue that was valid, whatever the server answers and the
  -- other threads do, leaves a valid queue and a last slot that is no lower; it sent one request
  -- in each round, and none if it got no handle of curl.
  pub poller_thread-Polled :
      (has_curl : Bool) (xs : List Exchange) (times : Schedule) (p : Poller) {later : Schedule}
      {p' : Poller}
      → IsValid p.queue
      → poller_thread json config has_curl xs times p ≡ some (p', later)
      → Polled (if has_curl then length xs else 0) p p'
  unfolding poller_thread
  poller_thread-Polled false xs times p v r =
      subst (λ (s : Poller × Schedule). Polled 0 p s.0) (eq_of_some r)
        (record { valid = v; slot_ge = omega arith; sent_all = omega arith })
  poller_thread-Polled true xs times p v r = poll_loop-Polled xs times p v r
