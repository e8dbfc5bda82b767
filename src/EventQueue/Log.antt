-- ===== src/EventQueue/Log.antt =====
-- Which events go in and come out over a sequence of critical sections.
use yurei_jsonrpc_client.Prelude.{
  ◌≡◌, sym, ◌∙◌, ap, Bool-cases, inl, inr, ◌==◌, if◌then◌else◌, Option, none, some, List, [], ◌∷◌,
  ◌++◌, append-nil, append_assoc, arith, Status, success, failure,
}
use yurei_jsonrpc_client.EventQueue.Event.{Event}
use yurei_jsonrpc_client.EventQueue.Ring.{
  EventQueue, push_waits, push_now, pop_waits, pop_now, close, Action, put, take_one, shut, perform,
  others,
}
use yurei_jsonrpc_client.EventQueue.Invariant.{IsValid, perform-IsValid}
use yurei_jsonrpc_client.EventQueue.Fifo.{contents, push_now-contents, pop_now-contents}

abbrev of_option : Option Event → List Event
of_option none = []
of_option (some e) = e ∷ []

abbrev if_success : Status → Event → List Event
if_success success e = e ∷ []
if_success failure e = []

-- The event for which this critical section of `yurei_queue_push` returns 0.
unfoldable pub accepted : Action → EventQueue → List Event
accepted (put e) q = if push_waits q then [] else if_success (push_now q e).0 e
accepted _ q = []

-- The event that this critical section of `yurei_queue_pop` hands out.
unfoldable pub delivered : Action → EventQueue → List Event
delivered take_one q = if pop_waits q then [] else of_option (pop_now q).0
delivered _ q = []

unfoldable pub all_accepted : List Action → EventQueue → List Event
all_accepted [] q = []
all_accepted (a ∷ as') q = accepted a q ++ all_accepted as' (perform a q)

unfoldable pub all_delivered : List Action → EventQueue → List Event
all_delivered [] q = []
all_delivered (a ∷ as') q = delivered a q ++ all_delivered as' (perform a q)

step_log :
    (a : Action) (q : EventQueue)
    → IsValid q
    → contents q ++ accepted a q ≡ delivered a q ++ contents (perform a q)
unfolding accepted delivered perform
step_log (put e) q v = elim (Bool-cases (push_waits q)) [
  | inl waits ↦ rw waits (append-nil (contents q))
  | inr free ↦ elim (Bool-cases q.closed) [
    | inl shut' ↦ unfold push_now in rw (free, shut') (append-nil (contents q))
    | inr open' ↦
        let grown = sym (push_now-contents e v free open') in
        rw free (unfold push_now in rw open' (rw open' at grown))
  ]
]
step_log take_one q v = elim (Bool-cases (pop_waits q)) [
  | inl waits ↦ rw waits (append-nil (contents q))
  | inr free ↦ elim (Bool-cases (q.size == 0)) [
    | inl empty ↦ unfold pop_waits pop_now in ground (arith, append-nil (contents q))
    | inr more ↦ let (c, o) = pop_now-contents v (ground arith) in rw (free, o, append-nil) c
  ]
]
step_log shut q v = unfold close in append-nil (contents q)

-- Over any interleaving of critical sections from a valid queue, the events held at first followed
-- by those accepted are the events delivered followed by those held at the end, in the same order.
pub log-conserved :
    (as' : List Action) (q : EventQueue)
    → IsValid q
    → contents q ++ all_accepted as' q ≡ all_delivered as' q ++ contents (others as' q)
unfolding all_accepted all_delivered others
log-conserved [] q v = append-nil (contents q)
log-conserved (a ∷ as') q v =
    let first = step_log a q v in
    let rest = log-conserved as' (perform a q) (perform-IsValid a q v) in
    sym (append_assoc (contents q) (accepted a q) (all_accepted as' (perform a q)))
    ∙ ap (λ (l : List Event). l ++ all_accepted as' (perform a q)) first
    ∙ append_assoc (delivered a q) (contents (perform a q)) (all_accepted as' (perform a q))
    ∙ ap (λ (l : List Event). delivered a q ++ l) rest
    ∙ sym (
        append_assoc (delivered a q) (all_delivered as' (perform a q))
          (contents (others as' (perform a q))))
