-- ===== src/EventQueue/Invariant.antt =====
-- What the fields of a queue say of each other, and that every operation keeps it.
use yurei_jsonrpc_client.Prelude.{
  ℕ, ◌+◌, ◌-◌, ◌%◌, ◌≤◌, ◌<◌, ◌≡◌, ap, true, false, Bool-cases, inl, inr, dec_lt, ltb,
  if◌then◌else◌, Option, some, List, [], ◌∷◌, arith, length, length-set, length-replicate, Status,
}
use native.Mathlib.Nat.{mod-eq_of_lt, mod_self}
use yurei_jsonrpc_client.EventQueue.Event.{Event, blank_event}
use yurei_jsonrpc_client.EventQueue.Ring.{
  EventQueue, size_mod, init, next_index, push_waits, push_now, pop_waits, pop_now, close, Action,
  put, take_one, shut, perform, others, Schedule, push, pop,
}

-- The index `n` slots after `i`, going round at `capacity`.
abbrev pub slot_after : ℕ → ℕ → ℕ → ℕ
slot_after capacity i n = if ltb (i + n) capacity then i + n else i + n - capacity

-- The queue was initialised and not destroyed, and its indices lie in the buffer.
pub record IsValid (q : EventQueue) : Type 0 where
  pub fits : q.capacity < size_mod
  pub stored : length q.buffer ≡ q.capacity
  pub head_in : q.head < q.capacity
  pub size_in : q.size ≤ q.capacity
  pub tail_at : q.tail ≡ slot_after q.capacity q.head q.size

pub next_index_lem :
    (capacity i : ℕ)
    → capacity < size_mod
    → i < capacity
    → next_index capacity i ≡ slot_after capacity i 1
unfolding next_index
next_index_lem capacity i h k = elim (dec_lt (i + 1) capacity) [
  | yes below ↦ ground (arith, mod-eq_of_lt below)
  | no last ↦
      let whole : (i + 1) % size_mod ≡ capacity = omega arith in
      ground (arith, whole, ap (λ (k : ℕ). k % capacity) whole, mod_self capacity)
]

pub init-IsValid :
    (capacity : ℕ) {q : EventQueue}
    → capacity < size_mod
    → init capacity true ≡ some q
    → IsValid q × (q.size ≡ 0) × (q.capacity ≡ capacity)
unfolding init
init-IsValid capacity h e = ground (arith, length-replicate capacity blank_event)

pub push_now-IsValid :
    {q : EventQueue} (e : Event) → IsValid q → push_waits q ≡ false → IsValid (push_now q e).1
unfolding push_now push_waits
push_now-IsValid {q} e v h =
    ground (arith, length-set q.buffer q.tail e, next_index_lem q.capacity q.tail)

pub pop_now-IsValid : {q : EventQueue} → IsValid q → pop_waits q ≡ false → IsValid (pop_now q).1
unfolding pop_now pop_waits
pop_now-IsValid {q} v h = ground (arith, next_index_lem q.capacity q.head)

pub close-IsValid : {q : EventQueue} → IsValid q → IsValid (close q)
unfolding close
close-IsValid v = ground arith

-- Every critical section keeps the queue valid: the indices lie in the buffer, the size is at most
-- the capacity, and the tail is the size behind the head.
pub perform-IsValid : (a : Action) (q : EventQueue) → IsValid q → IsValid (perform a q)
unfolding perform
perform-IsValid (put e) q v = elim (Bool-cases (push_waits q)) [
  | inl waits ↦ rw waits v
  | inr free ↦ rw free (push_now-IsValid e v free)
]
perform-IsValid take_one q v = elim (Bool-cases (pop_waits q)) [
  | inl waits ↦ rw waits v
  | inr free ↦ rw free (pop_now-IsValid v free)
]
perform-IsValid shut q v = close-IsValid v

pub others-IsValid : (as' : List Action) (q : EventQueue) → IsValid q → IsValid (others as' q)
unfolding others
others-IsValid [] q v = v
others-IsValid (a ∷ as') q v = others-IsValid as' (perform a q) (perform-IsValid a q v)

-- A `yurei_queue_push` that returns leaves a valid queue, whatever the other threads did.
pub push-IsValid :
    (times : Schedule) {q q' : EventQueue} (e : Event) {s : Status} {later : Schedule}
    → IsValid q
    → push times q e ≡ some (s, q', later)
    → IsValid q'
unfolding push
push-IsValid [] e v h = cc
push-IsValid (batch ∷ rest) {q} e v h = elim (Bool-cases (push_waits (others batch q))) [
  | inl waits ↦ push-IsValid rest e (others-IsValid batch q v) (rw waits at h)
  | inr free ↦
      let w = push_now-IsValid e (others-IsValid batch q v) free in
      let h' = rw free at h in ground arith
]

-- So does a `yurei_queue_pop` that returns.
pub pop-IsValid :
    (times : Schedule) {q q' : EventQueue} {e : Option Event} {later : Schedule}
    → IsValid q
    → pop times q ≡ some (e, q', later)
    → IsValid q'
unfolding pop
pop-IsValid [] v h = cc
pop-IsValid (batch ∷ rest) {q} v h = elim (Bool-cases (pop_waits (others batch q))) [
  | inl waits ↦ pop-IsValid rest (others-IsValid batch q v) (rw waits at h)
  | inr free ↦
      let w = pop_now-IsValid (others-IsValid batch q v) free in
      let h' = rw free at h in ground arith
]
