-- ===== src/Program/System/Work.antt =====
-- How much the threads have left to do.
use yurei_jsonrpc_client.Config.Fields.{Config}
use yurei_jsonrpc_client.Parser.Json.{CJson}
use yurei_jsonrpc_client.Prelude.{
  ◌&&◌, ◌&&◌, suc, ◌≤◌, arith, ◌<◌, true, ◌≡◌, false, Bool, ◌-◌, length, ◌+◌, ◌*◌, ℕ,
}
use yurei_jsonrpc_client.EventQueue.Ring.{destroy, close, push_now, pop_now, push_waits, pop_waits}
use yurei_jsonrpc_client.Program.System.Invariant.{rank}
use yurei_jsonrpc_client.Program.System.Runs.{Sound, Run-Sound}
use yurei_jsonrpc_client.Program.System.{
  starting, waiting, serving, ended, connecting, looping, popping, inserting, finished, Source,
  WriterAt, push_step, pop_step, insert_step, the_ws, the_poller, System, Run, here, next, Move,
  begin, fail, enter, receive, push, sleep_push, wake_source, sleep_pop, wake_writer, leave, end,
  connect, next_event, end_writer, pop, insert, signal, exit_loop, skip_ws, stop_ws, join_ws,
  skip_poller, stop_poller, join_poller, close_queue, stop_writer, join_writer, destroy_queue,
}

-- The most moves that are left, without a new round or a new message.
abbrev pub source_work : Source → ℕ
source_work starting = 3
source_work waiting = 1
source_work (serving es) = 8 * length es + 2
source_work ended = 0

abbrev pub writer_work : WriterAt → ℕ
writer_work connecting = 3
writer_work looping = 2
writer_work popping = 1
writer_work (inserting e) = 5
writer_work finished = 0

-- A thread that is awake can go to sleep.
abbrev pub awake : Bool → ℕ
awake true = 0
awake false = 1

abbrev pub work : System → ℕ
work s =
    source_work s.ws.at
    + source_work s.poller.at
    + 6 * s.queue.size
    + writer_work s.writer
    + awake s.ws_asleep
    + awake s.poller_asleep
    + awake s.writer_asleep
    + 4 * (9 - rank s.phase)

module _ (json : CJson) (config : Config) (use_ws online : Bool) where
  -- A move that takes up no new work.
  abbrev pub is_quiet : {s s' : System} → Move json config use_ws online s s' → Bool
  is_quiet (enter w a on) = false
  is_quiet (receive w root a) = false
  is_quiet signal = false
  is_quiet (wake_source w up) = false
  is_quiet (wake_writer up) = false
  is_quiet _ = true

  -- A quiet move takes from the work that is left.
  pub Move-work :
      {s s' : System} (m : Move json config use_ws online s s')
      → Sound config use_ws s
      → is_quiet m ≡ true
      → work s' < work s
  unfolding push_step pop_step insert_step push_now pop_now close destroy push_waits pop_waits
  Move-work (begin the_ws a) v q = ground arith
  Move-work (begin the_poller a) v q = ground arith
  Move-work (fail the_ws a) v q = ground arith
  Move-work (fail the_poller a) v q = ground arith
  Move-work (enter the_ws a on) v q = cc
  Move-work (enter the_poller a on) v q = cc
  Move-work (receive the_ws root a) v q = cc
  Move-work (receive the_poller root a) v q = cc
  Move-work (push the_ws e es a up free) v q = ground arith
  Move-work (push the_poller e es a up free) v q = ground arith
  Move-work (leave the_ws a) v q = ground arith
  Move-work (leave the_poller a) v q = ground arith
  Move-work (sleep_push the_ws e0 es0 a up full) v q = ground arith
  Move-work (sleep_push the_poller e0 es0 a up full) v q = ground arith
  Move-work (wake_source the_ws up) v q = cc
  Move-work (wake_source the_poller up) v q = cc
  Move-work (sleep_pop a up empty) v q = ground arith
  Move-work (wake_writer up) v q = cc
  Move-work (end the_ws a off) v q = ground arith
  Move-work (end the_poller a off) v q = ground arith
  Move-work (connect a up) v q = ground arith
  Move-work (next_event a on) v q = ground arith
  Move-work (end_writer a off) v q = ground arith
  Move-work (pop the_ws a up sig free) v q =
      let w = v.conserved.valid (let late = v.ordered.writer_ended in ground arith) in ground arith
  Move-work (pop the_poller a up sig free) v q =
      let w = v.conserved.valid (let late = v.ordered.writer_ended in ground arith) in ground arith
  Move-work (insert e answer r a ran) v q = ground arith
  Move-work signal v q = cc
  Move-work (exit_loop a on) v q = ground arith
  Move-work (skip_ws a off) v q = ground arith
  Move-work (stop_ws a on) v q = ground arith
  Move-work (join_ws a done) v q = ground arith
  Move-work (skip_poller a off) v q = ground arith
  Move-work (stop_poller a on) v q = ground arith
  Move-work (join_poller a done) v q = ground arith
  Move-work (close_queue a) v q = ground arith
  Move-work (stop_writer a) v q = ground arith
  Move-work (join_writer a done) v q = ground arith
  Move-work (destroy_queue a) v q = ground arith

  pub Move-should_exit :
      {s s' : System}
      → Move json config use_ws online s s'
      → s.should_exit ≡ true
      → s'.should_exit ≡ true
  unfolding push_step pop_step insert_step
  Move-should_exit (begin the_ws a) on' = ground arith
  Move-should_exit (begin the_poller a) on' = ground arith
  Move-should_exit (fail the_ws a) on' = ground arith
  Move-should_exit (fail the_poller a) on' = ground arith
  Move-should_exit (enter the_ws a on) on' = ground arith
  Move-should_exit (enter the_poller a on) on' = ground arith
  Move-should_exit (receive the_ws root a) on' = ground arith
  Move-should_exit (receive the_poller root a) on' = ground arith
  Move-should_exit (push the_ws e es a up free) on' = ground arith
  Move-should_exit (push the_poller e es a up free) on' = ground arith
  Move-should_exit (leave the_ws a) on' = ground arith
  Move-should_exit (leave the_poller a) on' = ground arith
  Move-should_exit (sleep_push the_ws e0 es0 a up full) on' = ground arith
  Move-should_exit (sleep_push the_poller e0 es0 a up full) on' = ground arith
  Move-should_exit (wake_source the_ws up) on' = ground arith
  Move-should_exit (wake_source the_poller up) on' = ground arith
  Move-should_exit (sleep_pop a up empty) on' = ground arith
  Move-should_exit (wake_writer up) on' = ground arith
  Move-should_exit (end the_ws a off) on' = ground arith
  Move-should_exit (end the_poller a off) on' = ground arith
  Move-should_exit (connect a up) on' = ground arith
  Move-should_exit (next_event a on) on' = ground arith
  Move-should_exit (end_writer a off) on' = ground arith
  Move-should_exit (pop the_ws a up sig free) on' = ground arith
  Move-should_exit (pop the_poller a up sig free) on' = ground arith
  Move-should_exit (insert e answer r a ran) on' = ground arith
  Move-should_exit signal on' = ground arith
  Move-should_exit (exit_loop a on) on' = ground arith
  Move-should_exit (skip_ws a off) on' = ground arith
  Move-should_exit (stop_ws a on) on' = ground arith
  Move-should_exit (join_ws a done) on' = ground arith
  Move-should_exit (skip_poller a off) on' = ground arith
  Move-should_exit (stop_poller a on) on' = ground arith
  Move-should_exit (join_poller a done) on' = ground arith
  Move-should_exit (close_queue a) on' = ground arith
  Move-should_exit (stop_writer a) on' = ground arith
  Move-should_exit (join_writer a done) on' = ground arith
  Move-should_exit (destroy_queue a) on' = ground arith

  abbrev pub moves : {s t : System} → Run json config use_ws online s t → ℕ
  moves here = 0
  moves (next run m) = suc (moves run)

  abbrev pub is_all_quiet : {s t : System} → Run json config use_ws online s t → Bool
  is_all_quiet here = true
  is_all_quiet (next run m) = is_all_quiet run && is_quiet m

  -- From a state that meets the invariant, a run without new rounds, new messages, signals to the
  -- process and wakeups for no reason has at most as many moves as the work that is left, which
  -- counts the events at hand and on the queue, the places of the threads and who is awake.
  pub quiet-bounded :
      {s t : System} (run : Run json config use_ws online s t)
      → Sound config use_ws s
      → is_all_quiet run ≡ true
      → moves run + work t ≤ work s
  quiet-bounded here v q = omega arith
  quiet-bounded (next run m) v q =
      let before = quiet-bounded run v (ground arith) in
      let step = Move-work m (Run-Sound json config use_ws online v run) (ground arith) in
      omega arith
