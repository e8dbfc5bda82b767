-- ===== src/Program/System/Stuck.antt =====
-- A shutdown that does not come to its end while the database cannot be reached.
use yurei_jsonrpc_client.Config.Fields.{Config}
use yurei_jsonrpc_client.EventQueue.Event.{Event}
use yurei_jsonrpc_client.Prelude.{◌≢◌, true, [], ◌≤◌, ◌∷◌, arith, false, ◌≡◌, Bool, List, ℕ}
use yurei_jsonrpc_client.Parser.Json.{CJson}
use yurei_jsonrpc_client.EventQueue.Ring.{EventQueue, push_waits}
use yurei_jsonrpc_client.EventQueue.Invariant.{IsValid}
use yurei_jsonrpc_client.EventQueue.Fifo.{contents}
use yurei_jsonrpc_client.Program.System.Invariant.{rank, Ordered}
use yurei_jsonrpc_client.Program.System.Runs.{Sound, Run-Sound, start-Sound}
use yurei_jsonrpc_client.Program.System.{
  source, Who, serving, connecting, start, the_ws, the_poller, System, Run, here, next, Move, begin,
  fail, enter, receive, push, sleep_push, wake_source, sleep_pop, wake_writer, leave, end, connect,
  next_event, end_writer, pop, insert, signal, exit_loop, skip_ws, stop_ws, join_ws, skip_poller,
  stop_poller, join_poller, close_queue, stop_writer, join_writer, destroy_queue, exited,
}

-- How far `main` comes without the end of a source.
abbrev pub last_rank : Who → ℕ
last_rank the_ws = 2
last_rank the_poller = 4

-- A source waits in a push to a full queue, and the writer for a connection.
pub record Stuck (w : Who) (e : Event) (es : List Event) (s : System) : Type 0 where
  pub full : s.queue.size ≡ s.queue.capacity
  pub unshut : s.queue.closed ≡ false
  pub blocked : (source w s).at ≡ serving (e ∷ es)
  pub apart : s.writer ≡ connecting
  pub early : rank s.phase ≤ last_rank w

module _ (json : CJson) (config : Config) (use_ws : Bool) where
  Move-Stuck_ws :
      (e : Event) (es : List Event) {s s' : System}
      → Ordered use_ws s
      → Stuck the_ws e es s
      → Move json config use_ws false s s'
      → Stuck the_ws e es s'
  unfolding push_waits
  Move-Stuck_ws e es o v (begin the_ws a) = ground arith
  Move-Stuck_ws e es o v (begin the_poller a) = ground arith
  Move-Stuck_ws e es o v (fail the_ws a) = ground arith
  Move-Stuck_ws e es o v (fail the_poller a) = ground arith
  Move-Stuck_ws e es o v (enter the_ws a on) = ground arith
  Move-Stuck_ws e es o v (enter the_poller a on) = ground arith
  Move-Stuck_ws e es o v (receive the_ws root a) = ground arith
  Move-Stuck_ws e es o v (receive the_poller root a) = ground arith
  Move-Stuck_ws e es o v (push the_ws e1 es1 a up free) = ground arith
  Move-Stuck_ws e es o v (push the_poller e1 es1 a up free) = ground arith
  Move-Stuck_ws e es o v (leave the_ws a) = ground arith
  Move-Stuck_ws e es o v (leave the_poller a) = ground arith
  Move-Stuck_ws e es o v (sleep_push the_ws e0 es0 a up full) = ground arith
  Move-Stuck_ws e es o v (sleep_push the_poller e0 es0 a up full) = ground arith
  Move-Stuck_ws e es o v (wake_source the_ws up) = ground arith
  Move-Stuck_ws e es o v (wake_source the_poller up) = ground arith
  Move-Stuck_ws e es o v (sleep_pop a up empty) = ground arith
  Move-Stuck_ws e es o v (wake_writer up) = ground arith
  Move-Stuck_ws e es o v (end the_ws a off) = ground arith
  Move-Stuck_ws e es o v (end the_poller a off) = ground arith
  Move-Stuck_ws e es o v (connect a up) = ground arith
  Move-Stuck_ws e es o v (next_event a on) = ground arith
  Move-Stuck_ws e es o v (end_writer a off) = ground arith
  Move-Stuck_ws e es o v (pop the_ws a up sig free) = ground arith
  Move-Stuck_ws e es o v (pop the_poller a up sig free) = ground arith
  Move-Stuck_ws e es o v (insert e1 answer r a ran) = ground arith
  Move-Stuck_ws e es o v signal = ground arith
  Move-Stuck_ws e es o v (exit_loop a on) = ground arith
  Move-Stuck_ws e es o v (skip_ws a off) = ground arith
  Move-Stuck_ws e es o v (stop_ws a on) = ground arith
  Move-Stuck_ws e es o v (join_ws a done) = ground arith
  Move-Stuck_ws e es o v (skip_poller a off) = ground arith
  Move-Stuck_ws e es o v (stop_poller a on) = ground arith
  Move-Stuck_ws e es o v (join_poller a done) = ground arith
  Move-Stuck_ws e es o v (close_queue a) = ground arith
  Move-Stuck_ws e es o v (stop_writer a) = ground arith
  Move-Stuck_ws e es o v (join_writer a done) = ground arith
  Move-Stuck_ws e es o v (destroy_queue a) = ground arith

  Move-Stuck_poller :
      (e : Event) (es : List Event) {s s' : System}
      → Ordered use_ws s
      → Stuck the_poller e es s
      → Move json config use_ws false s s'
      → Stuck the_poller e es s'
  unfolding push_waits
  Move-Stuck_poller e es o v (begin the_ws a) = ground arith
  Move-Stuck_poller e es o v (begin the_poller a) = ground arith
  Move-Stuck_poller e es o v (fail the_ws a) = ground arith
  Move-Stuck_poller e es o v (fail the_poller a) = ground arith
  Move-Stuck_poller e es o v (enter the_ws a on) = ground arith
  Move-Stuck_poller e es o v (enter the_poller a on) = ground arith
  Move-Stuck_poller e es o v (receive the_ws root a) = ground arith
  Move-Stuck_poller e es o v (receive the_poller root a) = ground arith
  Move-Stuck_poller e es o v (push the_ws e1 es1 a up free) = ground arith
  Move-Stuck_poller e es o v (push the_poller e1 es1 a up free) = ground arith
  Move-Stuck_poller e es o v (leave the_ws a) = ground arith
  Move-Stuck_poller e es o v (leave the_poller a) = ground arith
  Move-Stuck_poller e es o v (sleep_push the_ws e0 es0 a up full) = ground arith
  Move-Stuck_poller e es o v (sleep_push the_poller e0 es0 a up full) = ground arith
  Move-Stuck_poller e es o v (wake_source the_ws up) = ground arith
  Move-Stuck_poller e es o v (wake_source the_poller up) = ground arith
  Move-Stuck_poller e es o v (sleep_pop a up empty) = ground arith
  Move-Stuck_poller e es o v (wake_writer up) = ground arith
  Move-Stuck_poller e es o v (end the_ws a off) = ground arith
  Move-Stuck_poller e es o v (end the_poller a off) = ground arith
  Move-Stuck_poller e es o v (connect a up) = ground arith
  Move-Stuck_poller e es o v (next_event a on) = ground arith
  Move-Stuck_poller e es o v (end_writer a off) = ground arith
  Move-Stuck_poller e es o v (pop the_ws a up sig free) = ground arith
  Move-Stuck_poller e es o v (pop the_poller a up sig free) = ground arith
  Move-Stuck_poller e es o v (insert e1 answer r a ran) = ground arith
  Move-Stuck_poller e es o v signal = ground arith
  Move-Stuck_poller e es o v (exit_loop a on) = ground arith
  Move-Stuck_poller e es o v (skip_ws a off) = ground arith
  Move-Stuck_poller e es o v (stop_ws a on) = ground arith
  Move-Stuck_poller e es o v (join_ws a done) = ground arith
  Move-Stuck_poller e es o v (skip_poller a off) = ground arith
  Move-Stuck_poller e es o v (stop_poller a on) = ground arith
  Move-Stuck_poller e es o v (join_poller a done) = ground arith
  Move-Stuck_poller e es o v (close_queue a) = ground arith
  Move-Stuck_poller e es o v (stop_writer a) = ground arith
  Move-Stuck_poller e es o v (join_writer a done) = ground arith
  Move-Stuck_poller e es o v (destroy_queue a) = ground arith

  Move-Stuck :
      (w : Who) (e : Event) (es : List Event) {s s' : System}
      → Ordered use_ws s
      → Stuck w e es s
      → Move json config use_ws false s s'
      → Stuck w e es s'
  Move-Stuck the_ws = Move-Stuck_ws
  Move-Stuck the_poller = Move-Stuck_poller

  Run-Stuck :
      (w : Who) (e : Event) (es : List Event) {s t : System}
      → Sound config use_ws s
      → Stuck w e es s
      → Run json config use_ws false s t
      → Stuck w e es t
  Run-Stuck w e es v k here = k
  Run-Stuck w e es v k (next run m) =
      let later = Run-Sound json config use_ws false v run in
      Move-Stuck w e es later.ordered (Run-Stuck w e es v k run) m

  -- Over any run from the start of the main loop, on a valid open empty queue, that comes to a
  -- source waiting in a push on the full queue and the writer waiting for a connection, with main
  -- not behind the join of that source: as long as the database cannot be reached, they keep
  -- waiting and main does not exit.
  pub shutdown-Stuck :
      (use_poller : Bool) (q : EventQueue) (w : Who) (e : Event) (es : List Event) {s t : System}
      → IsValid q
      → q.closed ≡ false
      → contents q ≡ []
      → Run json config use_ws true (start use_ws use_poller q) s
      → Stuck w e es s
      → Run json config use_ws false s t
      → Stuck w e es t × (t.phase ≢ exited)
  shutdown-Stuck use_poller q the_ws e es v open' empty run k later =
      let k' =
        Run-Stuck the_ws e es (start-Sound json config use_ws true use_poller q v open' empty run) k
          later in
      (k', λ done. ground (arith, k'.early))
  shutdown-Stuck use_poller q the_poller e es v open' empty run k later =
      let k' =
        Run-Stuck the_poller e es
          (start-Sound json config use_ws true use_poller q v open' empty run) k later in
      (k', λ done. ground (arith, k'.early))
