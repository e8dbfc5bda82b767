-- ===== src/EventQueue/Tests.antt =====
-- Runs of the queue on concrete inputs, and the theorems of the queue at such inputs.
use yurei_jsonrpc_client.EventQueue.Blocked.{push-blocks}
use mathlib.Core.List.{flatten}
use yurei_jsonrpc_client.Prelude.{
  if◌then◌else◌, ℕ, ◌≡◌, refl, true, false, none, some, List, [], ◌∷◌, ◌++◌, arith, success,
  failure, replicate,
}
use yurei_jsonrpc_client.EventQueue.Event.{Event, blank_event}
use yurei_jsonrpc_client.EventQueue.Ring.{
  EventQueue, Schedule, Action, put, take_one, shut, init, push_waits, pop_now, perform, others,
  push, pop,
}
use yurei_jsonrpc_client.EventQueue.Invariant.{IsValid, init-IsValid, perform-IsValid}
use yurei_jsonrpc_client.EventQueue.Fifo.{view, contents, fifo_step}
use yurei_jsonrpc_client.EventQueue.Calls.{fifo_run, first?, push-refines, pop-refines}
use yurei_jsonrpc_client.EventQueue.Returns.{
  is_some, has_room, has_event, push-returns, pop-returns,
}
use yurei_jsonrpc_client.EventQueue.Log.{all_accepted, all_delivered, log-conserved}

abbrev at_slot : ℕ → Event
at_slot n = record blank_event { slot = n }

-- Two slots, both in use, the oldest event in the second one.
abbrev full_queue : EventQueue
full_queue = record {
  buffer = at_slot 8 ∷ at_slot 7 ∷ [];
  capacity = 2;
  head = 1;
  tail = 1;
  size = 2;
  closed = false;
}

-- The other threads leave the queue full, then take an event.
abbrev relief : Schedule
relief = [] ∷ (take_one ∷ []) ∷ (shut ∷ []) ∷ []

abbrev relieved : EventQueue
relieved = record {
  buffer = at_slot 8 ∷ at_slot 9 ∷ [];
  capacity = 2;
  head = 0;
  tail = 0;
  size = 2;
  closed = false;
}

push_waits_for_room :
    push relief full_queue (at_slot 9) ≡ some (success, relieved, (shut ∷ []) ∷ [])
unfolding push others perform
push_waits_for_room = refl

push_after_close :
    push ((shut ∷ []) ∷ []) full_queue (at_slot 9)
    ≡ some (failure, record full_queue { closed = true }, [])
unfolding push others perform
push_after_close = refl

init_fails : (init 0 true ≡ none) × (init 2 false ≡ none)
unfolding init
init_fails = (refl, refl)

full_queue-IsValid : IsValid full_queue
full_queue-IsValid = omega arith

popped_queue : EventQueue
unfolding pop_now
popped_queue = (pop_now full_queue).1

pop_oldest : pop ([] ∷ []) full_queue ≡ some (some (at_slot 7), popped_queue, [])
unfolding pop others popped_queue
pop_oldest = refl

init-IsValid_example :
    IsValid (record {
      buffer = replicate 3 blank_event;
      capacity = 3;
      head = 0;
      tail = 0;
      size = 0;
      closed = false;
    })
    × (◌≡◌ {A = ℕ} 0 0)
    × (◌≡◌ {A = ℕ} 3 3)
init-IsValid_example = init-IsValid 3 (omega arith) (unfold init in refl)

perform-IsValid_example : IsValid (perform take_one full_queue)
perform-IsValid_example = perform-IsValid take_one full_queue full_queue-IsValid

push-refines_example :
    (before : List Action) × (flatten relief ≡ before ++ flatten ((shut ∷ []) ∷ []))
    × (view relieved ≡ fifo_step (put (at_slot 9)) (fifo_run before (view full_queue)))
    × (success ≡ (if (fifo_run before (view full_queue)).closed then failure else success))
    × (success ≡ success
        → contents relieved ≡ (fifo_run before (view full_queue)).items ++ at_slot 9 ∷ [])
push-refines_example =
    push-refines relief full_queue (at_slot 9) full_queue-IsValid push_waits_for_room

pop-refines_example :
    (before : List Action) × (flatten ([] ∷ []) ≡ before ++ flatten [])
    × (view popped_queue ≡ fifo_step take_one (fifo_run before (view full_queue)))
    × (some (at_slot 7) ≡ first? (fifo_run before (view full_queue)).items)
    × (some (at_slot 7) ≡ none → (fifo_run before (view full_queue)).closed ≡ true)
pop-refines_example = pop-refines ([] ∷ []) full_queue full_queue-IsValid pop_oldest

-- A producer in between, and a consumer that empties the queue.
abbrev traffic : List Action
traffic = take_one ∷ put (at_slot 9) ∷ put (at_slot 10) ∷ take_one ∷ take_one ∷ take_one ∷ []

log-conserved_example :
    contents full_queue ++ all_accepted traffic full_queue
    ≡ all_delivered traffic full_queue ++ contents (others traffic full_queue)
log-conserved_example = log-conserved traffic full_queue full_queue-IsValid

push-returns_example :
    is_some (push ([] ∷ (take_one ∷ []) ∷ []) full_queue (at_slot 9))
    ≡ has_room ([] ∷ (take_one ∷ []) ∷ []) (view full_queue)
push-returns_example =
    push-returns ([] ∷ (take_one ∷ []) ∷ []) full_queue (at_slot 9) full_queue-IsValid

room_later : has_room ([] ∷ (take_one ∷ []) ∷ []) (view full_queue) ≡ true
unfolding has_room fifo_run fifo_step
room_later = refl

pop-returns_example :
    is_some (pop ((put (at_slot 9) ∷ []) ∷ []) full_queue)
    ≡ has_event ((put (at_slot 9) ∷ []) ∷ []) (view full_queue)
pop-returns_example = pop-returns ((put (at_slot 9) ∷ []) ∷ []) full_queue full_queue-IsValid

never_pushed : push ((put (at_slot 1) ∷ []) ∷ [] ∷ []) full_queue (at_slot 9) ≡ none
never_pushed =
    push-blocks ((put (at_slot 1) ∷ []) ∷ [] ∷ []) full_queue (at_slot 9)
      (unfold push_waits in refl) (omega arith)
