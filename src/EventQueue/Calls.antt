-- ===== src/EventQueue/Calls.antt =====
-- A whole call of `yurei_queue_push` or `yurei_queue_pop` among the other threads: what it returns
-- and what it leaves behind.
use mathlib.Core.List.{flatten}
use yurei_jsonrpc_client.Prelude.{
  ◌≡◌, refl, sym, ◌∙◌, ap, true, false, Bool-cases, inl, inr, ◌==◌, if◌then◌else◌, Option, none,
  some, List, [], ◌∷◌, ◌++◌, append_assoc, arith, Status, success, failure,
}
use yurei_jsonrpc_client.EventQueue.Event.{Event}
use yurei_jsonrpc_client.EventQueue.Ring.{
  EventQueue, push_waits, push_now, pop_waits, pop_now, Action, put, take_one, perform, others,
  Schedule, push, pop,
}
use yurei_jsonrpc_client.EventQueue.Invariant.{IsValid, perform-IsValid, others-IsValid}
use yurei_jsonrpc_client.EventQueue.Fifo.{
  Fifo, fifo_step, contents, view, perform-view, push_now-contents, pop_now-contents, slots_of_zero,
}

-- The list after the critical sections `as'`.
unfoldable pub fifo_run : List Action → Fifo → Fifo
fifo_run [] f = f
fifo_run (a ∷ as') f = fifo_run as' (fifo_step a f)

pub others-view :
    (as' : List Action) (q : EventQueue) → IsValid q → view (others as' q) ≡ fifo_run as' (view q)
unfolding others fifo_run
others-view [] q v = refl
others-view (a ∷ as') q v =
    others-view as' (perform a q) (perform-IsValid a q v) ∙ ap (fifo_run as') (perform-view a q v)

pub others-append :
    (xs ys : List Action) (q : EventQueue) → others (xs ++ ys) q ≡ others ys (others xs q)
unfolding others
others-append [] ys q = refl
others-append (x ∷ xs) ys q = others-append xs ys (perform x q)

-- What a call of `yurei_queue_push` that returned `s` and the queue `q'` did, with `later` left of
-- the schedule `times`.
pub record Pushed (times : Schedule) (q : EventQueue) (e : Event) (s : Status) (q' : EventQueue)
    (later : Schedule) : Type 0 where
  pub before : List Action
  pub in_order : flatten times ≡ before ++ flatten later
  pub ready : push_waits (others before q) ≡ false
  pub answer : s ≡ (push_now (others before q) e).0
  pub effect : q' ≡ perform (put e) (others before q)

push-waits_step :
    (b : List Action) (rest : Schedule) (q : EventQueue) (e : Event) {s : Status} {q' : EventQueue}
    {later : Schedule}
    → Pushed rest (others b q) e s q' later
    → Pushed (b ∷ rest) q e s q' later
unfolding flatten
push-waits_step b rest q e p = record {
  before = b ++ p.before;
  in_order = ap (λ (l : List Action). b ++ l) p.in_order ∙ sym (append_assoc b p.before _);
  ready = rw (others-append b p.before q) p.ready;
  answer = rw (others-append b p.before q) p.answer;
  effect = rw (others-append b p.before q) p.effect;
}

pub push-Pushed :
    (times : Schedule) (q : EventQueue) (e : Event) {s : Status} {q' : EventQueue}
    {later : Schedule}
    → push times q e ≡ some (s, q', later)
    → Pushed times q e s q' later
unfolding push flatten perform
push-Pushed [] q e h = cc
push-Pushed (b ∷ rest) q e {s} {q'} {later} h = elim (Bool-cases (push_waits (others b q))) [
  | inl waits ↦ push-waits_step b rest q e (push-Pushed rest (others b q) e (rw waits at h))
  | inr free ↦
      let h' = rw free at h in
      record {
        before = b;
        in_order = let same : rest ≡ later = cc in rw same;
        ready = free;
        answer = cc;
        effect = rw free (cc);
      }
]

put_success :
    (q : EventQueue) (e : Event)
    → IsValid q
    → push_waits q ≡ false
    → (push_now q e).0 ≡ success
    → contents (perform (put e) q) ≡ contents q ++ e ∷ []
unfolding perform
put_success q e v free ok = elim (Bool-cases q.closed) [
  | inl shut' ↦ unfold push_now in let bad : failure ≡ success = rw shut' at ok in cc
  | inr open' ↦ rw free (push_now-contents e v free open')
]

-- A push that returns on a valid queue has done, on the list that the other threads left, what the
-- bounded list specification says: it appended the event and returned 0 if the list was open, and
-- left a closed list alone and returned -1.
pub push-refines :
    (times : Schedule) (q : EventQueue) (e : Event) {s : Status} {q' : EventQueue}
    {later : Schedule}
    → IsValid q
    → push times q e ≡ some (s, q', later)
    → (before : List Action) × (flatten times ≡ before ++ flatten later)
      × (view q' ≡ fifo_step (put e) (fifo_run before (view q)))
      × (s ≡ (if (fifo_run before (view q)).closed then failure else success))
      × (s ≡ success → contents q' ≡ (fifo_run before (view q)).items ++ e ∷ [])
unfolding push_now
push-refines times q e {s} {q'} v h =
    let p = push-Pushed times q e h in
    let v' = others-IsValid p.before q v in
    let seen = others-view p.before q v in
    (
      p.before,
      p.in_order,
      rw (p.effect, ← seen) (perform-view (put e) (others p.before q) v'),
      rw (p.answer, ← seen) (ground arith),
      λ ok.
          rw (p.effect, ← seen) (put_success (others p.before q) e v' p.ready (sym p.answer ∙ ok)),
    )

-- What a call of `yurei_queue_pop` that handed out `e` did.
pub record Popped (times : Schedule) (q : EventQueue) (e : Option Event) (q' : EventQueue)
    (later : Schedule) : Type 0 where
  pub before : List Action
  pub in_order : flatten times ≡ before ++ flatten later
  pub ready : pop_waits (others before q) ≡ false
  pub answer : e ≡ (pop_now (others before q)).0
  pub effect : q' ≡ perform take_one (others before q)

pop-waits_step :
    (b : List Action) (rest : Schedule) (q : EventQueue) {e : Option Event} {q' : EventQueue}
    {later : Schedule}
    → Popped rest (others b q) e q' later
    → Popped (b ∷ rest) q e q' later
unfolding flatten
pop-waits_step b rest q p = record {
  before = b ++ p.before;
  in_order = ap (λ (l : List Action). b ++ l) p.in_order ∙ sym (append_assoc b p.before _);
  ready = rw (others-append b p.before q) p.ready;
  answer = rw (others-append b p.before q) p.answer;
  effect = rw (others-append b p.before q) p.effect;
}

pub pop-Popped :
    (times : Schedule) (q : EventQueue) {e : Option Event} {q' : EventQueue} {later : Schedule}
    → pop times q ≡ some (e, q', later)
    → Popped times q e q' later
unfolding pop flatten perform
pop-Popped [] q h = cc
pop-Popped (b ∷ rest) q {e} {q'} {later} h = elim (Bool-cases (pop_waits (others b q))) [
  | inl waits ↦ pop-waits_step b rest q (pop-Popped rest (others b q) (rw waits at h))
  | inr free ↦
      let h' = rw free at h in
      record {
        before = b;
        in_order = let same : rest ≡ later = cc in rw same;
        ready = free;
        answer = cc;
        effect = rw free (cc);
      }
]

abbrev pub first? : List Event → Option Event
first? [] = none
first? (x ∷ xs) = some x

pop_now-first? :
    (q : EventQueue) → IsValid q → pop_waits q ≡ false → (pop_now q).0 ≡ first? (contents q)
unfolding pop_waits pop_now
pop_now-first? q v free = elim (Bool-cases (q.size == 0)) [
  | inl empty ↦ ground (arith, slots_of_zero q.buffer q.capacity q.head q.size)
  | inr more ↦ let popped = pop_now-contents v (ground arith) in ground arith
]

pop_now-closed : (q : EventQueue) → (pop_now q).0 ≡ none → q.closed ≡ true
unfolding pop_now
pop_now-closed q h = ground arith

-- A pop that returns on a valid queue hands out the oldest event of the list that the other
-- threads left and removes it; it hands out none only where that list was closed.
pub pop-refines :
    (times : Schedule) (q : EventQueue) {e : Option Event} {q' : EventQueue} {later : Schedule}
    → IsValid q
    → pop times q ≡ some (e, q', later)
    → (before : List Action) × (flatten times ≡ before ++ flatten later)
      × (view q' ≡ fifo_step take_one (fifo_run before (view q)))
      × (e ≡ first? (fifo_run before (view q)).items)
      × (e ≡ none → (fifo_run before (view q)).closed ≡ true)
pop-refines times q {e} {q'} v h =
    let p = pop-Popped times q h in
    let v' = others-IsValid p.before q v in
    let seen = others-view p.before q v in
    (
      p.before,
      p.in_order,
      rw (p.effect, ← seen) (perform-view take_one (others p.before q) v'),
      rw (p.answer, ← seen) (pop_now-first? (others p.before q) v' p.ready),
      λ gone. rw (← seen) (pop_now-closed (others p.before q) (sym p.answer ∙ gone)),
    )
