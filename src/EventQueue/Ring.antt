-- ===== src/EventQueue/Ring.antt =====
-- The state of `YureiEventQueue` and its operations. The mutex makes every critical section atomic,
-- so a call is given what the other threads do whenever the mutex is free: a schedule, with one
-- batch of their critical sections before each time that the caller gets the mutex.
use yurei_jsonrpc_client.Prelude.{
  ℕ, ◌+◌, ◌-◌, ◌%◌, ◌^◌, Bool, true, false, not, ◌&&◌, ◌==◌, if◌then◌else◌, Option, none, some,
  List, [], ◌∷◌, get_or, set, replicate, Status, success, failure,
}
use yurei_jsonrpc_client.EventQueue.Event.{Event, blank_event}

pub record EventQueue : Type 0 where
  pub buffer : List Event
  pub capacity : ℕ
  pub head : ℕ
  pub tail : ℕ
  pub size : ℕ
  pub closed : Bool

-- The modulus of `size_t`.
abbrev pub size_mod : ℕ
size_mod = 2 ^ 64

-- `yurei_queue_init`; the flag says whether `calloc` returned memory.
unfoldable pub init : ℕ → Bool → Option EventQueue
init capacity allocated =
    if capacity == 0
    then none
    else if not allocated
    then none
    else some (record {
      buffer = replicate capacity blank_event;
      capacity = capacity;
      head = 0;
      tail = 0;
      size = 0;
      closed = false;
    })

-- `yurei_queue_destroy` frees the buffer and leaves the other fields.
unfoldable pub destroy : EventQueue → EventQueue
destroy q = record q { buffer = [] }

-- `(i + 1) % capacity` on `size_t`.
unfoldable pub next_index : ℕ → ℕ → ℕ
next_index capacity i = (i + 1) % size_mod % capacity

-- The test of the waiting loop of `yurei_queue_push`.
unfoldable pub push_waits : EventQueue → Bool
push_waits q = q.size == q.capacity && not q.closed

-- `yurei_queue_push` from the end of its waiting loop to the unlock.
unfoldable pub push_now : EventQueue → Event → Status × EventQueue
unfolding next_index
push_now q event = if q.closed then (failure, q) else (
  success,
  record q {
    buffer = set q.buffer q.tail event;
    tail = next_index q.capacity q.tail;
    size = (q.size + 1) % size_mod;
  },
)

-- The test of the waiting loop of `yurei_queue_pop`.
unfoldable pub pop_waits : EventQueue → Bool
pop_waits q = q.size == 0 && not q.closed

-- `yurei_queue_pop` from the end of its waiting loop to the unlock; the event is what goes through
-- the pointer, `none` where nothing is written.
unfoldable pub pop_now : EventQueue → Option Event × EventQueue
unfolding next_index
pop_now q = if q.size == 0 && q.closed then (none, q) else (
  some (get_or q.buffer q.head blank_event),
  record q { head = next_index q.capacity q.head; size = (q.size + size_mod - 1) % size_mod },
)

-- `yurei_queue_close`.
unfoldable pub close : EventQueue → EventQueue
close q = record q { closed = true }

-- A critical section of some thread.
pub data Action : Type 0 where
  put : Event → Action
  take_one : Action
  shut : Action

-- A thread whose loop says wait gives the mutex back and changes nothing.
unfoldable pub perform : Action → EventQueue → EventQueue
unfolding push_waits push_now pop_waits pop_now close
perform (put event) q = if push_waits q then q else (push_now q event).1
perform take_one q = if pop_waits q then q else (pop_now q).1
perform shut q = close q

unfoldable pub others : List Action → EventQueue → EventQueue
others [] q = q
others (a ∷ as') q = others as' (perform a q)

abbrev pub Schedule : Type 0
Schedule = List (List Action)

-- `yurei_queue_push`. Each batch of the schedule ends with this thread getting the mutex, by
-- `pthread_mutex_lock` or when `pthread_cond_wait` returns. `none` means that the schedule ended
-- before the call did.
unfoldable pub push : Schedule → EventQueue → Event → Option (Status × EventQueue × Schedule)
unfolding push_waits push_now others
push [] q event = none
push (batch ∷ later) q event =
    let q' = others batch q in
    let waited = push later q' event in
    let (s, q'') = push_now q' event in if push_waits q' then waited else some (s, q'', later)

-- `yurei_queue_pop`, in the same way. The status is -1 where the event is `none`.
unfoldable pub pop : Schedule → EventQueue → Option (Option Event × EventQueue × Schedule)
unfolding pop_waits pop_now others
pop [] q = none
pop (batch ∷ later) q =
    let q' = others batch q in
    let waited = pop later q' in
    let (e, q'') = pop_now q' in if pop_waits q' then waited else some (e, q'', later)
