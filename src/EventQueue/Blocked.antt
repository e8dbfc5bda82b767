-- ===== src/EventQueue/Blocked.antt =====
-- A call of `yurei_queue_push` that nobody wakes.
use yurei_jsonrpc_client.Prelude.{◌≡◌, refl, true, none, List, [], ◌∷◌, All}
use yurei_jsonrpc_client.EventQueue.Event.{Event}
use yurei_jsonrpc_client.EventQueue.Ring.{
  EventQueue, push_waits, Action, put, take_one, shut, perform, others, Schedule, push,
}

-- A critical section that neither takes an event nor closes the queue.
abbrev pub Pushes : Action → Type 0
Pushes (put e) = Unit {0}
Pushes take_one = ⊥
Pushes shut = ⊥

perform-full : (a : Action) (q : EventQueue) → Pushes a → push_waits q ≡ true → perform a q ≡ q
unfolding perform
perform-full (put e) q h full = rw full refl
perform-full take_one q h full = absurd h
perform-full shut q h full = absurd h

others-full :
    (as' : List Action) (q : EventQueue) → All Pushes as' → push_waits q ≡ true → others as' q ≡ q
unfolding others
others-full [] q h full = refl
others-full (a ∷ as') q h full =
    let same = perform-full a q h.0 full in rw (same, others-full as' q h.1 full) refl

-- A push to a full open queue does not return while the other threads only push.
pub push-blocks :
    (times : Schedule) (q : EventQueue) (e : Event)
    → push_waits q ≡ true
    → All (λ batch. All Pushes batch) times
    → push times q e ≡ none
unfolding push
push-blocks [] q e full h = refl
push-blocks (batch ∷ later) q e full h =
    let same = others-full batch q h.0 full in rw (same, full) (push-blocks later q e full h.1)
