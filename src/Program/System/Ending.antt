-- ===== src/Program/System/Ending.antt =====
-- The shutdown comes to its end while the database can be reached.
use yurei_jsonrpc_client.Program.System.Work.{
  Move-should_exit, Move-work, work, is_quiet, is_all_quiet, moves, quiet-bounded,
}
use yurei_jsonrpc_client.Program.System.Waiting.{is_pushing}
use yurei_jsonrpc_client.EventQueue.Event.{Event}
use yurei_jsonrpc_client.DbWriter.Insert.{statement, table_for_event, Inserted, insert_event}
use yurei_jsonrpc_client.Config.Fields.{Config}
use yurei_jsonrpc_client.Parser.Json.{CJson}
use yurei_jsonrpc_client.Prelude.{
  ◌+◌, List, zero, ◌==◌, ◌⊎◌, suc, Option-cases, some, [], ◌∷◌, refl, ◌≢◌, ◌≤◌, inr, inl,
  Bool-cases, arith, ◌<◌, true, ◌≡◌, false, Bool, ℕ,
}
use yurei_jsonrpc_client.EventQueue.Invariant.{IsValid}
use yurei_jsonrpc_client.EventQueue.Fifo.{contents}
use yurei_jsonrpc_client.EventQueue.Ring.{EventQueue, push_waits, pop_waits}
use yurei_jsonrpc_client.Program.System.Invariant.{rank}
use yurei_jsonrpc_client.Program.System.Runs.{Sound, Run-Sound, start-Sound}
use yurei_jsonrpc_client.Program.System.{
  sleep_push, sleep_pop, asleep, IsSignalled, exit_loop, source, Phase, Who, starting, waiting,
  serving, ended, connecting, looping, popping, inserting, finished, Source, WriterAt, main_loop,
  stopping_ws, stopping_poller, closing, stopping_writer, joining_writer, the_ws, the_poller,
  joining_poller, joining_ws, System, start, Run, here, next, Move, begin, push, leave, end,
  connect, next_event, end_writer, pop, insert, skip_ws, stop_ws, join_ws, skip_poller, stop_poller,
  join_poller, close_queue, stop_writer, join_writer, destroy_queue, destroying, exited,
}

-- A quiet move from `s`.
pub record Onward (json : CJson) (config : Config) (use_ws : Bool) (s : System) : Type 0 where
  pub after : System
  pub move : Move json config use_ws true s after
  pub quiet : is_quiet json config use_ws true move ≡ true

insert_event-answers :
    (config : Config) (e : Event) → (r : Inserted) × (insert_event config e (true ∷ []) ≡ some r)
unfolding insert_event
insert_event-answers config e = elim (Option-cases (table_for_event e.kind config)) [
  | inl absent ↦ (record { done = true; sent = []; answers = true ∷ [] }, rw absent refl)
  | inr (table, named) ↦
      (record { done = true; sent = statement table e ∷ []; answers = [] }, rw named refl)
]

finished-cases : (at : WriterAt) → (at ≡ finished) ⊎ (at ≢ finished)
finished-cases connecting = inr (λ e. cc)
finished-cases looping = inr (λ e. cc)
finished-cases popping = inr (λ e. cc)
finished-cases (inserting e) = inr (λ e. cc)
finished-cases finished = inl refl

-- `pthread_cond_signal` has somebody to wake, or nobody sleeps.
signalled : (s : System) → (w : Who) × IsSignalled w s
signalled s = elim (Bool-cases s.ws_asleep) [
  | inl sleeps ↦ (the_ws, λ up. let bad = sleeps in ground arith)
  | inr up ↦ (the_poller, λ up'. up)
]

pushing-cases :
    (a : Source) → is_pushing a ≡ true → (e : Event) × (es : List Event) × (a ≡ serving (e ∷ es))
pushing-cases (serving (e ∷ es)) h = (e, es, refl)
pushing-cases _ h = cc

module _ (json : CJson) (config : Config) (use_ws : Bool) where
  -- The writer moves, unless it has ended or sleeps; a pop that has to wait goes to sleep.
  writer-Onward :
      (s : System) (at : WriterAt)
      → s.writer ≡ at
      → at ≢ finished
      → s.writer_asleep ≡ false
      → Onward json config use_ws s
  writer-Onward s connecting at lives up = record {
    after = _;
    move = connect at refl;
    quiet = refl;
  }
  writer-Onward s looping at lives up = elim (Bool-cases s.writer_running) [
    | inl on ↦ record { after = _; move = next_event at on; quiet = refl }
    | inr off ↦ record { after = _; move = end_writer at off; quiet = refl }
  ]
  writer-Onward s popping at lives up = elim (Bool-cases (pop_waits s.queue)) [
    | inl empty ↦ record { after = _; move = sleep_pop at up empty; quiet = refl }
    | inr free ↦
        let (w, sig) = signalled s in
        record { after = _; move = pop w at up sig free; quiet = refl }
  ]
  writer-Onward s (inserting e) at lives up =
      let (r, ran) = insert_event-answers config e in
      record { after = _; move = insert e true r at ran; quiet = refl }
  writer-Onward s finished at lives up = absurd (lives refl)

  -- On a full queue the writer is awake.
  full-Onward :
      (s : System)
      → Sound config use_ws s
      → rank s.phase ≤ 5
      → s.queue.size ≡ s.queue.capacity
      → Onward json config use_ws s
  full-Onward s v early full =
      let valid = v.conserved.valid (omega arith) in
      let empty = v.waits.writer_empty in
      writer-Onward s s.writer refl (v.ordered.writer_lives early) (ground arith)

  push-Onward :
      (w : Who) (s : System) (e : Event) (es : List Event)
      → (source w s).at ≡ serving (e ∷ es)
      → asleep w s ≡ false
      → Onward json config use_ws s
  push-Onward w s e es at up = elim (Bool-cases (push_waits s.queue)) [
    | inl full ↦ record { after = _; move = sleep_push w e es at up full; quiet = refl }
    | inr free ↦ record { after = _; move = push w e es at up free; quiet = refl }
  ]

  -- While a source sleeps, the writer or the other source can move.
  sleeping-Onward :
      (w : Who) (s : System)
      → Sound config use_ws s
      → rank s.phase ≤ 5
      → asleep w s ≡ true
      → Onward json config use_ws s
  sleeping-Onward the_ws s v early sleeps = elim (Bool-cases (s.queue.size == s.queue.capacity)) [
    | inl full ↦ full-Onward s v early (ground arith)
    | inr room ↦
        let f = v.waits.ws_full sleeps in
        let b = v.waits.both_full sleeps in
        let (e, es, at) = pushing-cases s.poller.at (ground arith) in
        push-Onward the_poller s e es at (ground arith)
  ]
  sleeping-Onward the_poller s v early sleeps =
      elim (Bool-cases (s.queue.size == s.queue.capacity)) [
        | inl full ↦ full-Onward s v early (ground arith)
        | inr room ↦
            let f = v.waits.poller_full sleeps in
            let b = v.waits.both_full in
            let (e, es, at) = pushing-cases s.ws.at (ground arith) in
            push-Onward the_ws s e es at (ground arith)
      ]

  -- A source that was told to stop moves, or has ended, or sleeps; then another thread moves.
  source-Onward :
      (w : Who) (s : System) (a : Source)
      → Sound config use_ws s
      → rank s.phase ≤ 5
      → (source w s).at ≡ a
      → (source w s).running ≡ false
      → (a ≡ ended → Onward json config use_ws s)
      → Onward json config use_ws s
  source-Onward w s starting v early at off done = record {
    after = _;
    move = begin w at;
    quiet = refl;
  }
  source-Onward w s waiting v early at off done = record {
    after = _;
    move = end w at off;
    quiet = refl;
  }
  source-Onward w s (serving []) v early at off done = record {
    after = _;
    move = leave w at;
    quiet = refl;
  }
  source-Onward w s (serving (e ∷ es)) v early at off done = elim (Bool-cases (asleep w s)) [
    | inl sleeps ↦ sleeping-Onward w s v early sleeps
    | inr up ↦ push-Onward w s e es at up
  ]
  source-Onward w s ended v early at off done = done refl

  -- While `main` shuts down, some quiet move is possible.
  exiting-Onward :
      (s : System) (p : Phase)
      → Sound config use_ws s
      → s.phase ≡ p
      → s.should_exit ≡ true
      → p ≢ exited
      → Onward json config use_ws s
  exiting-Onward s main_loop v at going open' = record {
    after = _;
    move = exit_loop at going;
    quiet = refl;
  }
  exiting-Onward s stopping_ws v at going open' = elim (Bool-cases use_ws) [
    | inl on ↦ record { after = _; move = stop_ws at on; quiet = refl }
    | inr off ↦ record { after = _; move = skip_ws at off; quiet = refl }
  ]
  exiting-Onward s joining_ws v at going open' =
      source-Onward the_ws s s.ws.at v (rw at (omega arith)) refl (v.ordered.ws_stopped at)
        λ done. record { after = _; move = join_ws at done; quiet = refl }
  exiting-Onward s stopping_poller v at going open' = elim (Bool-cases s.poller.running) [
    | inl on ↦ record { after = _; move = stop_poller at on; quiet = refl }
    | inr off ↦ record { after = _; move = skip_poller at off; quiet = refl }
  ]
  exiting-Onward s joining_poller v at going open' =
      source-Onward the_poller s s.poller.at v (rw at (omega arith)) refl
        (v.ordered.poller_stopped at)
        λ done. record { after = _; move = join_poller at done; quiet = refl }
  exiting-Onward s closing v at going open' = record {
    after = _;
    move = close_queue at;
    quiet = refl;
  }
  exiting-Onward s stopping_writer v at going open' = record {
    after = _;
    move = stop_writer at;
    quiet = refl;
  }
  exiting-Onward s joining_writer v at going open' = elim (finished-cases s.writer) [
    | inl done ↦ record { after = _; move = join_writer at done; quiet = refl }
    | inr lives ↦
        let shut = v.ordered.shut (rw at (omega arith)) in
        let unshut = v.waits.writer_open in writer-Onward s s.writer refl lives (ground arith)
  ]
  exiting-Onward s destroying v at going open' = record {
    after = _;
    move = destroy_queue at;
    quiet = refl;
  }
  exiting-Onward s exited v at going open' = absurd (open' refl)

  -- The quiet runs of a shutdown: one that cannot go on has exited, and some way on leads there.
  pub record Exits (s t : System) (run : Run json config use_ws true s t) : Type 0 where
    pub bounded : moves json config use_ws true run + work t ≤ work s
    pub onward : (t.phase ≡ exited) ⊎ Onward json config use_ws t
    pub rest :
        (u : System) × (later : Run json config use_ws true s u) × (is_all_quiet json config use_ws
            true later
          ≡ true)
        × (u.phase ≡ exited)

  progress :
      (t : System)
      → Sound config use_ws t
      → t.should_exit ≡ true
      → (t.phase ≡ exited) ⊎ Onward json config use_ws t
  progress t v going = elim (Bool-cases (rank t.phase == 9)) [
    | inl done ↦ inl (ground arith)
    | inr more ↦ inr (exiting-Onward t t.phase v refl going (λ e. ground arith))
  ]

  Run-should_exit :
      {s t : System} → Run json config use_ws true s t → s.should_exit ≡ true → t.should_exit ≡ true
  Run-should_exit here going = going
  Run-should_exit (next run m) going =
      Move-should_exit json config use_ws true m (Run-should_exit run going)

  shutdown_from :
      (bound : ℕ) (s t : System) (run : Run json config use_ws true s t)
      → is_all_quiet json config use_ws true run ≡ true
      → Sound config use_ws t
      → t.should_exit ≡ true
      → work t < bound
      → (u : System) × (later : Run json config use_ws true s u) × (is_all_quiet json config use_ws
            true later
          ≡ true)
        × (u.phase ≡ exited)
  shutdown_from zero s t run quiet v going short = absurd (omega arith)
  shutdown_from (suc bound) s t run quiet v going short = elim (progress t v going) [
    | inl done ↦ (t, run, quiet, done)
    | inr o ↦
        let less = Move-work json config use_ws true o.move v o.quiet in
        let calm = o.quiet in
        shutdown_from bound s o.after (next run o.move) (ground arith)
          (Run-Sound json config use_ws true v (next here o.move))
          (Move-should_exit json config use_ws true o.move going) (omega arith)
  ]

  -- While the database can be reached, from a state that a run from the start of the main loop
  -- comes to, on a valid open empty queue, and in which the signal to exit has come, a run without
  -- new rounds, new messages, signals to the process and wakeups for no reason has at most as many
  -- moves as the work that was left; as long as main has not exited, some thread can make another
  -- such move, so no thread sleeps or waits in a join for good; and the run can be drawn out to
  -- one at whose end main has exited.
  pub shutdown-Exits :
      (use_poller : Bool) (q : EventQueue) {s t : System}
      → IsValid q
      → q.closed ≡ false
      → contents q ≡ []
      → Run json config use_ws true (start use_ws use_poller q) s
      → s.should_exit ≡ true
      → (run : Run json config use_ws true s t) → is_all_quiet json config use_ws true run ≡ true
      → Exits s t run
  shutdown-Exits use_poller q {s} {t} v open' empty first going run quiet =
      let sound = start-Sound json config use_ws true use_poller q v open' empty first in
      let sound' = Run-Sound json config use_ws true sound run in
      let going' = Run-should_exit run going in
      record {
        bounded = quiet-bounded json config use_ws true run sound quiet;
        onward = progress t sound' going';
        rest = shutdown_from (suc (work t)) s t run quiet sound' going' (omega arith);
      }
