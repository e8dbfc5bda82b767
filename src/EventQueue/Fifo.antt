-- ===== src/EventQueue/Fifo.antt =====
-- The queue as its users see it: a bounded first-in first-out list that can be closed.
use yurei_jsonrpc_client.Prelude.{
  ℕ, zero, suc, ◌+◌, ◌-◌, ◌%◌, ◌≤◌, ◌<◌, ◌≡◌, ◌≢◌, refl, ap, ap₂, Bool, true, false, ◌==◌,
  Bool-cases, inl, inr, if◌then◌else◌, some, List, [], ◌∷◌, ◌++◌, arith, length, get_or, set,
  get_or-set_self, get_or-set_ne,
}
use yurei_jsonrpc_client.EventQueue.Event.{Event, blank_event}
use yurei_jsonrpc_client.EventQueue.Ring.{
  EventQueue, size_mod, next_index, push_waits, push_now, pop_now, Action, put, take_one, shut,
  perform,
}
use yurei_jsonrpc_client.EventQueue.Invariant.{IsValid, slot_after, next_index_lem}

-- The specification: at most `capacity` items, oldest first.
pub record Fifo : Type 0 where
  pub capacity : ℕ
  pub items : List Event
  pub closed : Bool

unfoldable pub take_first : Fifo → List Event → Fifo
take_first f [] = f
take_first f (x ∷ xs) = record f { items = xs }

-- What a critical section does to the list: a full or closed queue takes nothing.
unfoldable pub fifo_step : Action → Fifo → Fifo
unfolding take_first
fifo_step (put e) f =
    if f.closed
    then f
    else if length f.items == f.capacity
    then f
    else record f { items = f.items ++ e ∷ [] }
fifo_step take_one f = take_first f f.items
fifo_step shut f = record f { closed = true }

-- The `n` slots of the buffer from index `i` on, going round at the capacity.
abbrev pub slots : List Event → ℕ → ℕ → ℕ → List Event
slots buffer capacity i zero = []
slots buffer capacity i (suc n) =
    get_or buffer i blank_event ∷ slots buffer capacity (next_index capacity i) n

-- The events that the queue holds, oldest first.
abbrev pub contents : EventQueue → List Event
contents q = slots q.buffer q.capacity q.head q.size

abbrev pub view : EventQueue → Fifo
view q = record { capacity = q.capacity; items = contents q; closed = q.closed }

length-slots : (b : List Event) (c i n : ℕ) → length (slots b c i n) ≡ n
length-slots b c i zero = refl
length-slots b c i (suc n) = ap suc (length-slots b c (next_index c i) n)

pub length-contents : (q : EventQueue) → length (contents q) ≡ q.size
length-contents q = length-slots q.buffer q.capacity q.head q.size

-- A write to the slot behind the last one appends.
slots-set :
    (b : List Event) (c n h i : ℕ) (e : Event)
    → c < size_mod
    → c ≤ length b
    → h < c
    → n < c
    → i ≡ slot_after c h n
    → slots (set b i e) c h (suc n) ≡ slots b c h n ++ e ∷ []
slots-set b c zero h i e fits st hc nc at =
    let here : i ≡ h = ground arith in
    ap (λ x. x ∷ []) (rw here (get_or-set_self b h e blank_event (omega arith)))
slots-set b c (suc n) h i e fits st hc nc at =
    let next = next_index_lem c h fits hc in
    ap₂ ◌∷◌ (get_or-set_ne b i h e blank_event (ground arith))
      (slots-set b c n (next_index c h) i e fits st (ground arith) (omega arith) (ground arith))

slots_of_ne_zero :
    (b : List Event) (c h n : ℕ)
    → n ≢ 0
    → slots b c h n ≡ get_or b h blank_event ∷ slots b c (next_index c h) (n - 1)
slots_of_ne_zero b c h zero p = absurd (p refl)
slots_of_ne_zero b c h (suc n) p = ap (λ k. slots b c h (suc k)) (omega arith)

pub slots_of_zero : (b : List Event) (c h n : ℕ) → n ≡ 0 → slots b c h n ≡ []
slots_of_zero b c h zero e = refl
slots_of_zero b c h (suc n) e = absurd (omega arith)

pub push_now-contents :
    {q : EventQueue} (e : Event)
    → IsValid q
    → push_waits q ≡ false
    → q.closed ≡ false
    → contents (push_now q e).1 ≡ contents q ++ e ∷ []
unfolding push_now push_waits
push_now-contents {q} e v free open' =
    let appended = slots-set q.buffer q.capacity q.size q.head q.tail e v.fits in
    let grown : (q.size + 1) % size_mod ≡ suc q.size = ground arith in
    rw (open', grown) (appended (omega arith) v.head_in (ground arith) v.tail_at)

pub pop_now-contents :
    {q : EventQueue}
    → IsValid q
    → q.size ≢ 0
    → (contents q ≡ get_or q.buffer q.head blank_event ∷ contents (pop_now q).1)
      × ((pop_now q).0 ≡ some (get_or q.buffer q.head blank_event))
unfolding pop_now
pop_now-contents {q} v ne =
    let shrunk : (q.size + size_mod - 1) % size_mod ≡ q.size - 1 = omega arith in
    ground (arith, shrunk, slots_of_ne_zero q.buffer q.capacity q.head q.size ne)

view-put :
    (e : Event) (q : EventQueue) → IsValid q → view (perform (put e) q) ≡ fifo_step (put e) (view q)
unfolding perform fifo_step
view-put e q v = elim (Bool-cases q.closed) [
  | inl shut' ↦ ground arith
  | inr open' ↦ elim (Bool-cases (q.size == q.capacity)) [
    | inl full ↦ ground (arith, length-contents q)
    | inr room ↦
        let grown = push_now-contents e v (ground arith) open' in ground (arith, length-contents q)
  ]
]

view-take_one :
    (q : EventQueue) → IsValid q → view (perform take_one q) ≡ fifo_step take_one (view q)
unfolding perform fifo_step
view-take_one q v = elim (Bool-cases (q.size == 0)) [
  | inl empty ↦ ground (arith, slots_of_zero q.buffer q.capacity q.head q.size)
  | inr some' ↦ let popped = pop_now-contents v (ground arith) in ground (arith, length-contents q)
]

-- Every critical section of the code does to the list what the specification says.
pub perform-view :
    (a : Action) (q : EventQueue) → IsValid q → view (perform a q) ≡ fifo_step a (view q)
perform-view (put e) q v = view-put e q v
perform-view take_one q v = view-take_one q v
perform-view shut q v = unfold perform fifo_step in refl
