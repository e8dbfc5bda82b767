-- ===== src/EventQueue/Returns.antt =====
-- When a call of `yurei_queue_push` or `yurei_queue_pop` returns.
use yurei_jsonrpc_client.Prelude.{
  ◌≡◌, refl, Bool, true, false, not, ◌&&◌, ◌==◌, if◌then◌else◌, Option, none, some, [], ◌∷◌, length,
}
use yurei_jsonrpc_client.EventQueue.Event.{Event}
use yurei_jsonrpc_client.EventQueue.Ring.{
  EventQueue, Schedule, push_waits, pop_waits, others, push, pop,
}
use yurei_jsonrpc_client.EventQueue.Invariant.{IsValid, others-IsValid}
use yurei_jsonrpc_client.EventQueue.Fifo.{Fifo, view, length-contents}
use yurei_jsonrpc_client.EventQueue.Calls.{fifo_run, others-view}

abbrev pub is_some {ℓ} : {A : Type ℓ} → Option A → Bool
is_some none = false
is_some (some a) = true

-- Whether the list is closed or has room after some batch of the schedule, the batches before done.
unfoldable pub has_room : Schedule → Fifo → Bool
has_room [] f = false
has_room (batch ∷ later) f =
    let f' = fifo_run batch f in
    let rest = has_room later f' in
    if f'.closed then true else if length f'.items == f'.capacity then rest else true

-- Whether the list is closed or has an event after some batch of the schedule.
unfoldable pub has_event : Schedule → Fifo → Bool
has_event [] f = false
has_event (batch ∷ later) f =
    let f' = fifo_run batch f in
    let rest = has_event later f' in
    if f'.closed then true else if length f'.items == 0 then rest else true

-- A call that waits goes on with the rest of the schedule, and one that does not has returned.
waiting_or :
    {A : Type 0} (full closed : Bool) (a : A) (waited : Option A) (rest : Bool)
    → is_some waited ≡ rest
    → is_some (if full && not closed then waited else some a)
      ≡ (if closed then true else if full then rest else true)
waiting_or true true a w r h = refl
waiting_or true false a w r h = h
waiting_or false true a w r h = refl
waiting_or false false a w r h = refl

-- A push on a valid queue returns exactly if after some batch of its schedule the list of the
-- specification is closed or has room; otherwise it waits until the schedule ends.
pub push-returns :
    (times : Schedule) (q : EventQueue) (e : Event)
    → IsValid q
    → is_some (push times q e) ≡ has_room times (view q)
unfolding push has_room push_waits
push-returns [] q e v = refl
push-returns (b ∷ later) q e v =
    let q' : EventQueue = others b q in
    let ih = push-returns later q' e (others-IsValid b q v) in
    rw (← others-view b q v, length-contents q')
      (waiting_or (q'.size == q'.capacity) q'.closed _ _ _ ih)

-- A pop on a valid queue returns exactly if after some batch of its schedule the list of the
-- specification is closed or has an event; otherwise it waits until the schedule ends.
pub pop-returns :
    (times : Schedule) (q : EventQueue)
    → IsValid q
    → is_some (pop times q) ≡ has_event times (view q)
unfolding pop has_event pop_waits
pop-returns [] q v = refl
pop-returns (b ∷ later) q v =
    let q' : EventQueue = others b q in
    let ih = pop-returns later q' (others-IsValid b q v) in
    rw (← others-view b q v, length-contents q') (waiting_or (q'.size == 0) q'.closed _ _ _ ih)
