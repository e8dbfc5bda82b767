-- ===== src/Program/System/Waiting.antt =====
-- Which threads can be asleep. Nobody sleeps through what he waits for: the invariant fails if a push, a
-- pop or the close does not wake the threads that it signals.
use yurei_jsonrpc_client.Config.Fields.{Config}
use yurei_jsonrpc_client.Parser.Json.{CJson}
use yurei_jsonrpc_client.Prelude.{◌∷◌, ◌+◌, ◌≤◌, true, false, arith, ◌≡◌, ◌<◌, Bool}
use yurei_jsonrpc_client.EventQueue.Ring.{destroy, close}
use yurei_jsonrpc_client.Program.System.{
  popping, Source, serving, push_step, insert_step, pop_step, the_ws, the_poller, System, Move,
  begin, fail, enter, receive, push, sleep_push, wake_source, sleep_pop, wake_writer, leave, end,
  connect, next_event, end_writer, pop, insert, signal, exit_loop, skip_ws, stop_ws, join_ws,
  skip_poller, stop_poller, join_poller, close_queue, stop_writer, join_writer, destroy_queue,
}
use yurei_jsonrpc_client.EventQueue.Ring.{push_now, pop_now, push_waits, pop_waits}
use yurei_jsonrpc_client.EventQueue.Invariant.{IsValid}
use yurei_jsonrpc_client.Program.System.Invariant.{rank, Ordered}

-- A source with an event to push.
abbrev pub is_pushing : Source → Bool
is_pushing (serving (e ∷ es)) = true
is_pushing _ = false

-- A source that sleeps has an event to push, and the queue is open and full, or has one place for which
-- the other source is awake and has an event. The database thread sleeps only on an empty open queue.
pub record Waits (s : System) : Type 0 where
  pub ws_pushes : s.ws_asleep ≡ true → is_pushing s.ws.at ≡ true
  pub poller_pushes : s.poller_asleep ≡ true → is_pushing s.poller.at ≡ true
  pub ws_open : s.ws_asleep ≡ true → s.queue.closed ≡ false
  pub poller_open : s.poller_asleep ≡ true → s.queue.closed ≡ false
  pub ws_near : s.ws_asleep ≡ true → s.queue.capacity ≤ s.queue.size + 1
  pub poller_near : s.poller_asleep ≡ true → s.queue.capacity ≤ s.queue.size + 1
  pub ws_full :
      s.ws_asleep ≡ true → is_pushing s.poller.at ≡ false → s.queue.size ≡ s.queue.capacity
  pub poller_full :
      s.poller_asleep ≡ true → is_pushing s.ws.at ≡ false → s.queue.size ≡ s.queue.capacity
  pub both_full : s.ws_asleep ≡ true → s.poller_asleep ≡ true → s.queue.size ≡ s.queue.capacity
  pub writer_pops : s.writer_asleep ≡ true → s.writer ≡ popping
  pub writer_open : s.writer_asleep ≡ true → s.queue.closed ≡ false
  pub writer_empty : s.writer_asleep ≡ true → s.queue.size ≡ 0

module _ (json : CJson) (config : Config) (use_ws online : Bool) where
  pub Move-Waits :
      {s s' : System}
      → Ordered use_ws s
      → (rank s.phase < 9 → IsValid s.queue)
      → Waits s
      → Move json config use_ws online s s'
      → Waits s'
  unfolding push_step pop_step insert_step close destroy push_now pop_now push_waits pop_waits
  Move-Waits o valid v (begin the_ws a) = ground arith
  Move-Waits o valid v (begin the_poller a) = ground arith
  Move-Waits o valid v (fail the_ws a) = ground arith
  Move-Waits o valid v (fail the_poller a) = ground arith
  Move-Waits o valid v (enter the_ws a on) = ground arith
  Move-Waits o valid v (enter the_poller a on) = ground arith
  Move-Waits o valid v (receive the_ws root a) = ground arith
  Move-Waits o valid v (receive the_poller root a) = ground arith
  Move-Waits o valid v (push the_ws e es a up free) = ground arith
  Move-Waits o valid v (push the_poller e es a up free) = ground arith
  Move-Waits o valid v (leave the_ws a) = ground arith
  Move-Waits o valid v (leave the_poller a) = ground arith
  Move-Waits o valid v (sleep_push the_ws e0 es0 a up full) = ground arith
  Move-Waits o valid v (sleep_push the_poller e0 es0 a up full) = ground arith
  Move-Waits o valid v (wake_source the_ws up) = ground arith
  Move-Waits o valid v (wake_source the_poller up) = ground arith
  Move-Waits o valid v (sleep_pop a up empty) = ground arith
  Move-Waits o valid v (wake_writer up) = ground arith
  Move-Waits o valid v (end the_ws a off) = ground arith
  Move-Waits o valid v (end the_poller a off) = ground arith
  Move-Waits o valid v (connect a up) = ground arith
  Move-Waits o valid v (next_event a on) = ground arith
  Move-Waits o valid v (end_writer a off) = ground arith
  Move-Waits o valid v (pop the_ws a up sig free) = ground arith
  Move-Waits o valid v (pop the_poller a up sig free) = ground arith
  Move-Waits o valid v (insert e answer r a ran) = ground arith
  Move-Waits o valid v signal = ground arith
  Move-Waits o valid v (exit_loop a on) = ground arith
  Move-Waits o valid v (skip_ws a off) = ground arith
  Move-Waits o valid v (stop_ws a on) = ground arith
  Move-Waits o valid v (join_ws a done) = ground arith
  Move-Waits o valid v (skip_poller a off) = ground arith
  Move-Waits o valid v (stop_poller a on) = ground arith
  Move-Waits o valid v (join_poller a done) = ground arith
  Move-Waits o valid v (close_queue a) = ground arith
  Move-Waits o valid v (stop_writer a) = ground arith
  Move-Waits o valid v (join_writer a done) = ground arith
  Move-Waits o valid v (destroy_queue a) = ground arith
