-- ===== src/Program/System/Tests.antt =====
-- Runs of the threads, and their theorems at concrete inputs.
use yurei_jsonrpc_client.Parser.Handling.{handle_message-accepts, Accepted}
use yurei_jsonrpc_client.Parser.Extract.{message_events}
use yurei_jsonrpc_client.DbWriter.Drains.{writer_thread-Drained, Drained}
use yurei_jsonrpc_client.CString.{codes}
use yurei_jsonrpc_client.EventQueue.Fifo.{contents}
use yurei_jsonrpc_client.Parser.Message.{value_or_zero, handle_message, Handled}
use yurei_jsonrpc_client.Program.System.Work.{quiet-bounded, work, moves}
use yurei_jsonrpc_client.DbWriter.Thread.{writer_thread, Writer, statements}
use yurei_jsonrpc_client.DbWriter.Insert.{table_for_event, insert_event, Statement}
use yurei_jsonrpc_client.Prelude.{
  none, ◌++◌, replicate, length, ◌⊎◌, ◌≤◌, ◌+◌, some, ◌≢◌, List, subst, ◌≡◌, refl, false, [], true,
  arith, ◌∷◌,
}
use yurei_jsonrpc_client.EventQueue.Event.{Event, blank_event}
use yurei_jsonrpc_client.EventQueue.Ring.{
  destroy, close, next_index, EventQueue, push_now, push_waits, pop_now, pop_waits,
}
use yurei_jsonrpc_client.EventQueue.Invariant.{push_now-IsValid, IsValid}
use yurei_jsonrpc_client.Parser.Sample.{
  empty_queue-IsValid, empty_queue, event, tree_json, config, notification, notification_events,
}
use yurei_jsonrpc_client.Program.System.{
  the_poller, connecting, WriterAt, handle_signal, exit_loop, end, join_writer, end_writer,
  stop_writer, close_queue, skip_poller, destroy_queue, join_ws, exited, destroying, source, Who,
  goes, joining_ws, the_ws, waiting, serving, ended, looping, inserting, finished, start, System,
  Run, here, next, begin, enter, receive, push, sleep_push, leave, connect, next_event, pop, insert,
  signal, stop_ws, push_step, pop_step, insert_step,
}
use yurei_jsonrpc_client.Program.System.Simulated.{offers, replicate-Quiet, handle_message-Run}
use yurei_jsonrpc_client.Program.System.Written.{shows, writer_thread-Run}
use yurei_jsonrpc_client.Program.System.Stuck.{Stuck, shutdown-Stuck}
use yurei_jsonrpc_client.Program.System.Runs.{
  start-Sound, Sound, Delivered, start-Delivered, destroyed_last,
}
use yurei_jsonrpc_client.Program.System.Ending.{Exits, shutdown-Exits}

-- A queue with room for one event.
abbrev small : EventQueue
small = record {
  buffer = blank_event ∷ [];
  capacity = 1;
  head = 0;
  tail = 0;
  size = 0;
  closed = false;
}

small-IsValid : IsValid small
small-IsValid = omega arith

-- The client has pushed the event of one message, and `main` waits for it with the next message.
abbrev waits : System
waits = record (start true false small) {
  queue = record small { buffer = event ∷ []; size = 1 };
  ws = record { running = false; at = serving (event ∷ []) };
  phase = joining_ws;
  should_exit = true;
  accepted = event ∷ [];
}

-- A run that goes on with the notification.
with_notification :
    (w : Who) {s t : System}
    → Run tree_json config true true s t
    → (source w t).at ≡ serving []
    → Run tree_json config true true s (goes w (serving (event ∷ [])) t)
with_notification w {s} {t} run at =
    subst (λ (es : List Event). Run tree_json config true true s (goes w (serving es) t))
      notification_events (next run (receive w notification at))

abbrev first : System
first = start true false small

first_message : Run tree_json config true true first (goes the_ws (serving (event ∷ [])) first)
unfolding start
first_message =
    with_notification the_ws (next (next here (begin the_ws refl)) (enter the_ws refl refl)) refl

waits_reached : Run tree_json config true true first waits
unfolding start push_step push_now push_waits next_index
waits_reached =
    next
      (next
        (next
          (with_notification the_ws (next first_message (push the_ws event [] refl refl refl)) refl)
          signal)
        (exit_loop refl refl))
      (stop_ws refl refl)

waits-Stuck : Stuck the_ws event [] waits
unfolding start
waits-Stuck = ground arith

shutdown-Stuck_example : Stuck the_ws event [] waits × (waits.phase ≢ exited)
shutdown-Stuck_example =
    shutdown-Stuck tree_json config true false small the_ws event [] small-IsValid refl refl
      waits_reached waits-Stuck here

-- The writer has taken the event of the message.
abbrev taken_one : System
taken_one = record first {
  queue = record small { buffer = event ∷ []; size = 0 };
  ws = record { running = true; at = waiting };
  writer = inserting event;
  accepted = event ∷ [];
  taken = event ∷ [];
}

taken_one_reached : Run tree_json config true true first taken_one
unfolding start push_step push_now push_waits next_index pop_step pop_now pop_waits
taken_one_reached =
    next
      (next
        (next (next (next first_message (push the_ws event [] refl refl refl)) (leave the_ws refl))
          (connect refl refl))
        (next_event refl refl))
      (pop the_ws refl refl (λ up. refl) refl)

start-Delivered_example : Delivered config taken_one
start-Delivered_example =
    start-Delivered tree_json config true true false small small-IsValid refl refl taken_one_reached

-- What the insert of the event sends.
abbrev stored : List Statement
stored = statements config (event ∷ [])

event_stored :
    insert_event config event (true ∷ [])
    ≡ some (record { done = true; sent = stored; answers = [] })
unfolding insert_event table_for_event statements
event_stored = refl

-- The event is stored, and `main` has joined all threads.
abbrev joined : System
joined = record taken_one {
  queue = record small { buffer = event ∷ []; size = 0; closed = true };
  ws = record { running = false; at = ended };
  writer_running = false;
  writer = finished;
  phase = destroying;
  should_exit = true;
  sent = stored;
}

joined_reached : Run tree_json config true true first joined
unfolding start insert_step close
joined_reached =
    let r0 =
      next taken_one_reached (
        insert event true (record { done = true; sent = stored; answers = [] }) refl
          event_stored) in
    let r1 =
      next
        (next (next (next (next r0 signal) (exit_loop refl refl)) (stop_ws refl refl))
          (end the_ws refl refl))
        (join_ws refl refl) in
    let r2 = next (next (next r1 (skip_poller refl refl)) (close_queue refl)) (stop_writer refl) in
    next (next r2 (end_writer refl refl)) (join_writer refl refl)

abbrev emptied : System
emptied = record joined { phase = exited; queue = destroy joined.queue }

destroyed_last_example :
    (emptied ≡ handle_signal joined) ⊎ ((joined.phase ≡ destroying) × (emptied ≡ emptied))
destroyed_last_example =
    destroyed_last tree_json config true true false small small-IsValid refl refl joined_reached
      (omega arith) (destroy_queue refl)

-- The client goes to sleep in its push while `main` waits for it.
sleeping_run : Run tree_json config true true waits (record waits { ws_asleep = true })
unfolding start push_waits
sleeping_run = next here (sleep_push the_ws event [] refl refl refl)

shutdown-Exits_example :
    Exits tree_json config true waits (record waits { ws_asleep = true }) sleeping_run
unfolding sleeping_run
shutdown-Exits_example =
    shutdown-Exits tree_json config true false small small-IsValid refl refl waits_reached refl
      sleeping_run refl

-- The writer connects while `main` waits.
connected_run : Run tree_json config true true waits (record waits { writer = looping })
unfolding start
connected_run = next here (connect refl refl)

waits-Sound : Sound config true waits
waits-Sound =
    start-Sound tree_json config true true false small small-IsValid refl refl waits_reached

quiet-bounded_example :
    moves tree_json config true true connected_run + work (record waits { writer = looping })
    ≤ work waits
unfolding connected_run
quiet-bounded_example = quiet-bounded tree_json config true true connected_run waits-Sound refl

-- The message handled with no other thread at the mutex.
handled :
    (h : Handled) × (handle_message tree_json config
        (codes "{}")
        empty_queue
        (replicate (length (message_events tree_json config notification)) [])
        none
      ≡ some h)
    × Accepted (message_events tree_json config notification) empty_queue none h
handled =
    handle_message-accepts tree_json config (codes "{}") notification empty_queue none refl
      empty_queue-IsValid refl (rw notification_events (omega arith))

handle_message-Run_example :
    (kept : List Event) × (length kept ≡ value_or_zero handled.0.code)
    × Run tree_json config true true
        (offers the_poller [] empty_queue [] first)
        (offers the_poller [] handled.0.queue ([] ++ kept) first)
handle_message-Run_example =
    handle_message-Run tree_json config true true the_poller (codes "{}")
      (replicate (length (message_events tree_json config notification)) []) none empty_queue []
      first (replicate-Quiet (length (message_events tree_json config notification))) handled.1

-- The database thread with one event on the queue.
abbrev writer_at_start : Writer
writer_at_start = record {
  queue = (push_now small event).1;
  times = [] ∷ [];
  inserts = true ∷ [];
  connects = true ∷ [];
  taken = [];
  sent = [];
}

one_held : contents writer_at_start.queue ≡ event ∷ []
unfolding push_now next_index
one_held = refl

writer_at_start-IsValid : IsValid writer_at_start.queue
writer_at_start-IsValid = push_now-IsValid event small-IsValid (unfold push_waits in refl)

one_answer : writer_at_start.inserts ≡ replicate (length (statements config (event ∷ []))) true
unfolding statements table_for_event
one_answer = refl

drained :
    (w' : Writer) × (writer_thread config (true ∷ false ∷ []) writer_at_start ≡ some w')
    × Drained config (event ∷ []) [] writer_at_start w'
drained =
    writer_thread-Drained config (event ∷ []) [] 0 writer_at_start writer_at_start-IsValid one_held
      refl one_answer refl

writer_thread-Run_example :
    (place : WriterAt) × ((place ≡ looping) ⊎ (place ≡ finished))
    × Run tree_json config true true
        (shows writer_at_start connecting first)
        (shows drained.0 place first)
unfolding start
writer_thread-Run_example =
    writer_thread-Run tree_json config true (true ∷ false ∷ []) writer_at_start first refl
      (refl, tt) drained.1
