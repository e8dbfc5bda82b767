-- ===== src/Program/System/Runs.antt =====
-- Runs of the threads from the start of the main loop.
use yurei_jsonrpc_client.DbWriter.Sent.{statements-append}
use yurei_jsonrpc_client.DbWriter.Insert.{Statement}
use yurei_jsonrpc_client.EventQueue.Event.{Event}
use yurei_jsonrpc_client.Parser.Json.{CJson}
use yurei_jsonrpc_client.Config.Fields.{Config}
use yurei_jsonrpc_client.Prelude.{
  inr, inl, ◌⊎◌, ap, ◌∙◌, append_assoc, refl, ◌<◌, sym, arith, ◌++◌, [], false, ◌≡◌, ◌≤◌, List,
  Bool,
}
use yurei_jsonrpc_client.EventQueue.Invariant.{IsValid}
use yurei_jsonrpc_client.EventQueue.Fifo.{contents}
use yurei_jsonrpc_client.EventQueue.Ring.{EventQueue, destroy}
use yurei_jsonrpc_client.DbWriter.Thread.{statements}
use yurei_jsonrpc_client.Program.System.Invariant.{rank, Ordered, Move-Ordered}
use yurei_jsonrpc_client.Program.System.Waiting.{Waits, Move-Waits}
use yurei_jsonrpc_client.Program.System.Conserved.{Conserved, in_hand, Move-Conserved}
use yurei_jsonrpc_client.Program.System.{
  handle_signal, the_ws, the_poller, System, start, Run, here, next, Move, begin, fail, enter,
  receive, push, sleep_push, wake_source, sleep_pop, wake_writer, leave, end, connect, next_event,
  end_writer, pop, insert, signal, exit_loop, skip_ws, stop_ws, join_ws, skip_poller, stop_poller,
  join_poller, close_queue, stop_writer, join_writer, destroy_queue, destroying, exited,
}

start-Ordered :
    (use_ws use_poller : Bool) (q : EventQueue)
    → q.closed ≡ false
    → Ordered use_ws (start use_ws use_poller q)
unfolding start
start-Ordered use_ws use_poller q open' = ground arith

start-Conserved :
    (config : Config) (use_ws use_poller : Bool) (q : EventQueue)
    → IsValid q
    → contents q ≡ []
    → Conserved config (start use_ws use_poller q)
unfolding start statements
start-Conserved config use_ws use_poller q v empty = record {
  valid = λ h. v;
  left = [];
  held = refl;
  on_queue = λ h. sym empty;
  recorded = refl;
}

start-Waits : (use_ws use_poller : Bool) (q : EventQueue) → Waits (start use_ws use_poller q)
unfolding start
start-Waits use_ws use_poller q = ground arith

-- What holds after any run.
pub record Sound (config : Config) (use_ws : Bool) (s : System) : Type 0 where
  pub ordered : Ordered use_ws s
  pub conserved : Conserved config s
  pub waits : Waits s

-- The statements sent are the first of those of the accepted events.
pub record Delivered (config : Config) (s : System) : Type 0 where
  pub rest : List Event
  pub sent_first :
      s.sent ++ (in_hand config s.writer ++ statements config rest) ≡ statements config s.accepted
  pub rest_is : rank s.phase < 9 → rest ≡ contents s.queue

module _ (json : CJson) (config : Config) (use_ws online : Bool) where
  pub Run-Sound :
      {s t : System}
      → Sound config use_ws s
      → Run json config use_ws online s t
      → Sound config use_ws t
  Run-Sound v here = v
  Run-Sound v (next run m) =
      let w = Run-Sound v run in
      record {
        ordered = Move-Ordered json config use_ws online w.ordered m;
        conserved = Move-Conserved json config use_ws online w.ordered w.conserved m;
        waits = Move-Waits json config use_ws online w.ordered w.conserved.valid w.waits m;
      }

  pub start-Sound :
      (use_poller : Bool) (q : EventQueue) {s : System}
      → IsValid q
      → q.closed ≡ false
      → contents q ≡ []
      → Run json config use_ws online (start use_ws use_poller q) s
      → Sound config use_ws s
  start-Sound use_poller q v open' empty run =
      Run-Sound
        (record {
          ordered = start-Ordered use_ws use_poller q open';
          conserved = start-Conserved config use_ws use_poller q v empty;
          waits = start-Waits use_ws use_poller q;
        })
        run

  -- Over any run of the threads together from the start of the main loop, on a valid open empty
  -- queue, whatever messages come, whichever inserts fail and in whatever order the threads move:
  -- the statements sent, then the one at hand, then those of the accepted events that the writer
  -- did not take, are the statements of the accepted events, each once and in order; the events
  -- that it did not take are those on the queue, until the queue is destroyed.
  pub start-Delivered :
      (use_poller : Bool) (q : EventQueue) {s : System}
      → IsValid q
      → q.closed ≡ false
      → contents q ≡ []
      → Run json config use_ws online (start use_ws use_poller q) s
      → Delivered config s
  start-Delivered use_poller q {s} v open' empty run =
      let c = (start-Sound use_poller q v open' empty run).conserved in
      record {
        rest = c.left;
        sent_first =
            sym (append_assoc s.sent (in_hand config s.writer) (statements config c.left))
            ∙ ap (λ (l : List Statement). l ++ statements config c.left) c.recorded
            ∙ sym (statements-append config s.taken c.left)
            ∙ ap (statements config) (sym c.held);
        rest_is = c.on_queue;
      }

  Move_last :
      {s s' : System}
      → Ordered use_ws s
      → Waits s
      → 8 ≤ rank s.phase
      → Move json config use_ws online s s'
      → (s' ≡ handle_signal s)
        ⊎ ((s.phase ≡ destroying) × (s' ≡ record s { phase = exited; queue = destroy s.queue }))
  Move_last o k late (begin the_ws a) = absurd (ground arith)
  Move_last o k late (begin the_poller a) = absurd (ground arith)
  Move_last o k late (fail the_ws a) = absurd (ground arith)
  Move_last o k late (fail the_poller a) = absurd (ground arith)
  Move_last o k late (enter the_ws a on) = absurd (ground arith)
  Move_last o k late (enter the_poller a on) = absurd (ground arith)
  Move_last o k late (receive the_ws root a) = absurd (ground arith)
  Move_last o k late (receive the_poller root a) = absurd (ground arith)
  Move_last o k late (push the_ws e es a up free) = absurd (ground arith)
  Move_last o k late (push the_poller e es a up free) = absurd (ground arith)
  Move_last o k late (leave the_ws a) = absurd (ground arith)
  Move_last o k late (leave the_poller a) = absurd (ground arith)
  Move_last o k late (sleep_push the_ws e0 es0 a up full) = absurd (ground arith)
  Move_last o k late (sleep_push the_poller e0 es0 a up full) = absurd (ground arith)
  Move_last o k late (wake_source the_ws up) = absurd (ground arith)
  Move_last o k late (wake_source the_poller up) = absurd (ground arith)
  Move_last o k late (sleep_pop a up empty) = absurd (ground arith)
  Move_last o k late (wake_writer up) = absurd (ground arith)
  Move_last o k late (end the_ws a off) = absurd (ground arith)
  Move_last o k late (end the_poller a off) = absurd (ground arith)
  Move_last o k late (connect a up) = absurd (ground arith)
  Move_last o k late (next_event a on) = absurd (ground arith)
  Move_last o k late (end_writer a off) = absurd (ground arith)
  Move_last o k late (pop the_ws a up sig free) = absurd (ground arith)
  Move_last o k late (pop the_poller a up sig free) = absurd (ground arith)
  Move_last o k late (insert e answer r a ran) = absurd (ground arith)
  Move_last o k late signal = inl refl
  Move_last o k late (exit_loop a on) = absurd (ground arith)
  Move_last o k late (skip_ws a off) = absurd (ground arith)
  Move_last o k late (stop_ws a on) = absurd (ground arith)
  Move_last o k late (join_ws a done) = absurd (ground arith)
  Move_last o k late (skip_poller a off) = absurd (ground arith)
  Move_last o k late (stop_poller a on) = absurd (ground arith)
  Move_last o k late (join_poller a done) = absurd (ground arith)
  Move_last o k late (close_queue a) = absurd (ground arith)
  Move_last o k late (stop_writer a) = absurd (ground arith)
  Move_last o k late (join_writer a done) = absurd (ground arith)
  Move_last o k late (destroy_queue a) = inr (a, refl)

  -- Over any run from the start of the main loop, on a valid open empty queue: when main is about
  -- to destroy the queue, no thread makes a move any more, but for main that destroys it and the
  -- signal handler; when it has destroyed the queue, the signal handler alone.
  pub destroyed_last :
      (use_poller : Bool) (q : EventQueue) {s s' : System}
      → IsValid q
      → q.closed ≡ false
      → contents q ≡ []
      → Run json config use_ws online (start use_ws use_poller q) s
      → 8 ≤ rank s.phase
      → Move json config use_ws online s s'
      → (s' ≡ handle_signal s)
        ⊎ ((s.phase ≡ destroying) × (s' ≡ record s { phase = exited; queue = destroy s.queue }))
  destroyed_last use_poller q v open' empty run late m =
      let sound = start-Sound use_poller q v open' empty run in
      Move_last sound.ordered sound.waits late m
