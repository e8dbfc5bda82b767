-- ===== src/Program/System/Invariant.antt =====
-- What holds of the threads after any moves.
use yurei_jsonrpc_client.Config.Fields.{Config}
use yurei_jsonrpc_client.Parser.Json.{CJson}
use yurei_jsonrpc_client.Prelude.{◌≢◌, ◌≤◌, true, false, arith, ◌≡◌, ◌<◌, ℕ, Bool}
use yurei_jsonrpc_client.EventQueue.Ring.{destroy, close}
use yurei_jsonrpc_client.Program.System.{
  push_step, insert_step, pop_step, ended, finished, main_loop, stopping_ws, stopping_poller,
  closing, stopping_writer, joining_writer, destroying, exited, the_ws, the_poller, joining_poller,
  joining_ws, Phase, System, Move, begin, fail, enter, receive, push, sleep_push, wake_source,
  sleep_pop, wake_writer, leave, end, connect, next_event, end_writer, pop, insert, signal,
  exit_loop, skip_ws, stop_ws, join_ws, skip_poller, stop_poller, join_poller, close_queue,
  stop_writer, join_writer, destroy_queue,
}

-- How far `main` has come.
abbrev pub rank : Phase → ℕ
rank main_loop = 0
rank stopping_ws = 1
rank joining_ws = 2
rank stopping_poller = 3
rank joining_poller = 4
rank closing = 5
rank stopping_writer = 6
rank joining_writer = 7
rank destroying = 8
rank exited = 9

-- The order of the flags, the threads and `main`.
pub record Ordered (use_ws : Bool) (s : System) : Type 0 where
  pub ws_ended : 2 < rank s.phase → s.ws.at ≡ ended
  pub ws_unused : use_ws ≡ false → s.ws.at ≡ ended
  pub ws_stopped : s.phase ≡ joining_ws → s.ws.running ≡ false
  pub poller_ended : 4 < rank s.phase → s.poller.at ≡ ended
  pub poller_off : rank s.phase < 4 → s.poller.running ≡ false → s.poller.at ≡ ended
  pub poller_stopped : s.phase ≡ joining_poller → s.poller.running ≡ false
  pub shut : 5 < rank s.phase → s.queue.closed ≡ true
  pub unshut : rank s.phase ≤ 5 → s.queue.closed ≡ false
  pub writer_on : rank s.phase < 7 → s.writer_running ≡ true
  pub writer_off : 6 < rank s.phase → s.writer_running ≡ false
  pub writer_ended : 7 < rank s.phase → s.writer ≡ finished
  pub writer_lives : rank s.phase ≤ 5 → s.writer ≢ finished

module _ (json : CJson) (config : Config) (use_ws online : Bool) where
  pub Move-Ordered :
      {s s' : System} → Ordered use_ws s → Move json config use_ws online s s' → Ordered use_ws s'
  unfolding push_step pop_step insert_step close destroy
  Move-Ordered v (begin the_ws a) = ground arith
  Move-Ordered v (begin the_poller a) = ground arith
  Move-Ordered v (fail the_ws a) = ground arith
  Move-Ordered v (fail the_poller a) = ground arith
  Move-Ordered v (enter the_ws a on) = ground arith
  Move-Ordered v (enter the_poller a on) = ground arith
  Move-Ordered v (receive the_ws root a) = ground arith
  Move-Ordered v (receive the_poller root a) = ground arith
  Move-Ordered v (push the_ws e es a up free) = ground arith
  Move-Ordered v (push the_poller e es a up free) = ground arith
  Move-Ordered v (leave the_ws a) = ground arith
  Move-Ordered v (leave the_poller a) = ground arith
  Move-Ordered v (sleep_push the_ws e0 es0 a up full) = ground arith
  Move-Ordered v (sleep_push the_poller e0 es0 a up full) = ground arith
  Move-Ordered v (wake_source the_ws up) = ground arith
  Move-Ordered v (wake_source the_poller up) = ground arith
  Move-Ordered v (sleep_pop a up empty) = ground arith
  Move-Ordered v (wake_writer up) = ground arith
  Move-Ordered v (end the_ws a off) = ground arith
  Move-Ordered v (end the_poller a off) = ground arith
  Move-Ordered v (connect a up) = ground arith
  Move-Ordered v (next_event a on) = ground arith
  Move-Ordered v (end_writer a off) = ground arith
  Move-Ordered v (pop the_ws a up sig free) = ground arith
  Move-Ordered v (pop the_poller a up sig free) = ground arith
  Move-Ordered v (insert e answer r a ran) = ground arith
  Move-Ordered v signal = ground arith
  Move-Ordered v (exit_loop a on) = ground arith
  Move-Ordered v (skip_ws a off) = ground arith
  Move-Ordered v (stop_ws a on) = ground arith
  Move-Ordered v (join_ws a done) = ground arith
  Move-Ordered v (skip_poller a off) = ground arith
  Move-Ordered v (stop_poller a on) = ground arith
  Move-Ordered v (join_poller a done) = ground arith
  Move-Ordered v (close_queue a) = ground arith
  Move-Ordered v (stop_writer a) = ground arith
  Move-Ordered v (join_writer a done) = ground arith
  Move-Ordered v (destroy_queue a) = ground arith
