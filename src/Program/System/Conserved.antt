-- ===== src/Program/System/Conserved.antt =====
-- What becomes of the events while the threads move.
use yurei_jsonrpc_client.Parser.Json.{CJson}
use yurei_jsonrpc_client.DbWriter.Sent.{insert_event-sent, statements-append}
use yurei_jsonrpc_client.DbWriter.Insert.{insert_event, Inserted, Statement}
use yurei_jsonrpc_client.EventQueue.Event.{blank_event, Event}
use yurei_jsonrpc_client.Prelude.{
  refl, if◌then◌else◌, append-nil, sym, append_assoc, get_or, ◌∙◌, none, ap, arith, success, true,
  failure, some, ◌==◌, inr, inl, [], Bool-cases, ◌∷◌, false, ◌++◌, Bool, ◌≡◌, List, ◌<◌,
}
use yurei_jsonrpc_client.Config.Fields.{Config}
use yurei_jsonrpc_client.EventQueue.Ring.{push_now, pop_now, close, destroy, push_waits, pop_waits}
use yurei_jsonrpc_client.EventQueue.Invariant.{
  IsValid, push_now-IsValid, pop_now-IsValid, close-IsValid,
}
use yurei_jsonrpc_client.EventQueue.Fifo.{contents, push_now-contents, pop_now-contents}
use yurei_jsonrpc_client.DbWriter.Thread.{statements}
use yurei_jsonrpc_client.Program.System.Invariant.{rank, Ordered}
use yurei_jsonrpc_client.Program.System.{
  Who, set_asleep, SourceThread, WriterAt, insert_step, pop_step, push_step, connecting, looping,
  popping, inserting, the_ws, the_poller, Phase, System, Move, begin, fail, enter, receive, push,
  sleep_push, wake_source, sleep_pop, wake_writer, leave, end, connect, next_event, end_writer, pop,
  insert, signal, exit_loop, skip_ws, stop_ws, join_ws, skip_poller, stop_poller, join_poller,
  close_queue, stop_writer, join_writer, destroy_queue,
}

-- The statements that the writer is about to send.
abbrev pub in_hand : Config → WriterAt → List Statement
in_hand config (inserting e) = statements config (e ∷ [])
in_hand config _ = []

-- Each accepted event was taken or is on the queue, in order, and the statements sent are those of the
-- events taken, but for the one at hand.
pub record Conserved (config : Config) (s : System) : Type 0 where
  pub valid : rank s.phase < 9 → IsValid s.queue
  pub left : List Event
  pub held : s.accepted ≡ s.taken ++ left
  pub on_queue : rank s.phase < 9 → left ≡ contents s.queue
  pub recorded : s.sent ++ in_hand config s.writer ≡ statements config s.taken

-- Nobody who sleeps or wakes changes that.
asleep-Conserved :
    (config : Config) (s : System) {ws poller writer : Bool}
    → Conserved config s
    → Conserved config (record s { ws_asleep = ws; poller_asleep = poller; writer_asleep = writer })
asleep-Conserved config s v = record {
  valid = v.valid;
  left = v.left;
  held = v.held;
  on_queue = v.on_queue;
  recorded = v.recorded;
}

set_asleep-Conserved :
    (config : Config) (w : Who) (b : Bool) (s : System)
    → Conserved config s
    → Conserved config (set_asleep w b s)
set_asleep-Conserved config the_ws b s v = asleep-Conserved config s v
set_asleep-Conserved config the_poller b s v = asleep-Conserved config s v

push_step-Conserved :
    (config : Config) (e : Event) (s : System)
    → rank s.phase < 9
    → push_waits s.queue ≡ false
    → Conserved config s
    → Conserved config (push_step e s)
unfolding push_step
push_step-Conserved config e s early free v = elim (Bool-cases s.queue.closed) [
  | inl shut ↦
      let refused : push_now s.queue e ≡ (failure, s.queue) = unfold push_now in simp shut in
      rw refused (asleep-Conserved config s v)
  | inr open' ↦
      let took : (push_now s.queue e).0 ≡ success = unfold push_now in simp open' in
      let grown = push_now-contents e (v.valid early) free open' in
      record {
        valid = λ h. push_now-IsValid e (v.valid early) free;
        left = v.left ++ e ∷ [];
        held =
            rw took (
              ap (λ (es : List Event). es ++ e ∷ []) v.held ∙ append_assoc s.taken v.left (e ∷ []));
        on_queue = λ h. rw (grown, v.on_queue early) refl;
        recorded = v.recorded;
      }
]

pop_step-Conserved :
    (config : Config) (w : Who) (s : System)
    → rank s.phase < 9
    → s.writer ≡ popping
    → pop_waits s.queue ≡ false
    → Conserved config s
    → Conserved config (pop_step w s)
unfolding pop_step
pop_step-Conserved config w s early at free v = elim (Bool-cases (s.queue.size == 0)) [
  | inl empty ↦
      let shut : s.queue.closed ≡ true = unfold pop_waits in ground arith in
      let nothing : pop_now s.queue ≡ (none, s.queue) = unfold pop_now in simp (empty, shut) in
      rw nothing (record {
        valid = v.valid;
        left = v.left;
        held = v.held;
        on_queue = v.on_queue;
        recorded = rw at at v.recorded;
      })
  | inr more ↦
      let (split, got) = pop_now-contents (v.valid early) (ground arith) in
      let x : Event = get_or s.queue.buffer s.queue.head blank_event in
      let sent_all : s.sent ++ [] ≡ statements config s.taken = rw at at v.recorded in
      rw got (
        set_asleep-Conserved config w false _ (record {
          valid = λ h. pop_now-IsValid (v.valid early) free;
          left = contents (pop_now s.queue).1;
          held = v.held ∙ rw (v.on_queue early, split) (sym (append_assoc s.taken (x ∷ []) _));
          on_queue = λ h. refl;
          recorded =
              ap (λ (l : List Statement). l ++ statements config (x ∷ []))
                (sym (append-nil s.sent) ∙ sent_all)
              ∙ sym (statements-append config s.taken (x ∷ []));
        }))
]

insert_step-Conserved :
    (config : Config) (e : Event) (answer : Bool) (r : Inserted) (s : System)
    → s.writer ≡ inserting e
    → insert_event config e (answer ∷ []) ≡ some r
    → Conserved config s
    → Conserved config (insert_step r s)
unfolding insert_step
insert_step-Conserved config e answer r s at ran v =
    let all_sent : s.sent ++ statements config (e ∷ []) ≡ statements config s.taken =
      rw at at v.recorded in
    let none_left : in_hand config (if r.done then looping else connecting) ≡ [] = ground arith in
    record {
      valid = v.valid;
      left = v.left;
      held = v.held;
      on_queue = v.on_queue;
      recorded =
          rw (none_left, insert_event-sent config e (answer ∷ []) ran)
            (append-nil (s.sent ++ statements config (e ∷ [])) ∙ all_sent);
    }

-- A move of a source that does not reach the queue.
source-Conserved :
    (config : Config) (s : System) {ws poller : SourceThread}
    → Conserved config s
    → Conserved config (record s { ws = ws; poller = poller })
source-Conserved config s v = record {
  valid = v.valid;
  left = v.left;
  held = v.held;
  on_queue = v.on_queue;
  recorded = v.recorded;
}

-- A move of the writer that neither reaches the queue nor sends.
writer-Conserved :
    (config : Config) (s : System) {at : WriterAt}
    → s.sent ++ in_hand config at ≡ statements config s.taken
    → Conserved config s
    → Conserved config (record s { writer = at })
writer-Conserved config s none_left v = record {
  valid = v.valid;
  left = v.left;
  held = v.held;
  on_queue = v.on_queue;
  recorded = none_left;
}

-- A move of `main` that does not reach the queue.
main-Conserved :
    (config : Config) (s : System) {phase : Phase} {ws poller : SourceThread} {running : Bool}
    → rank s.phase < 9
    → Conserved config s
    → Conserved config
        (record s { phase = phase; ws = ws; poller = poller; writer_running = running })
main-Conserved config s early v = record {
  valid = λ h. v.valid early;
  left = v.left;
  held = v.held;
  on_queue = λ h. v.on_queue early;
  recorded = v.recorded;
}

module _ (json : CJson) (config : Config) (use_ws online : Bool) where
  pub Move-Conserved :
      {s s' : System}
      → Ordered use_ws s
      → Conserved config s
      → Move json config use_ws online s s'
      → Conserved config s'
  unfolding close destroy
  Move-Conserved o v (begin the_ws a) = source-Conserved config _ v
  Move-Conserved o v (begin the_poller a) = source-Conserved config _ v
  Move-Conserved o v (fail the_ws a) = source-Conserved config _ v
  Move-Conserved o v (fail the_poller a) = source-Conserved config _ v
  Move-Conserved o v (enter the_ws a on) = source-Conserved config _ v
  Move-Conserved o v (enter the_poller a on) = source-Conserved config _ v
  Move-Conserved o v (receive the_ws root a) = source-Conserved config _ v
  Move-Conserved o v (receive the_poller root a) = source-Conserved config _ v
  Move-Conserved o v (push the_ws e es a up free) =
      source-Conserved config _ (push_step-Conserved config e _ (ground arith) free v)
  Move-Conserved o v (push the_poller e es a up free) =
      source-Conserved config _ (push_step-Conserved config e _ (ground arith) free v)
  Move-Conserved o v (leave the_ws a) = source-Conserved config _ v
  Move-Conserved o v (leave the_poller a) = source-Conserved config _ v
  Move-Conserved o v (sleep_push the_ws e0 es0 a up full) = asleep-Conserved config _ v
  Move-Conserved o v (sleep_push the_poller e0 es0 a up full) = asleep-Conserved config _ v
  Move-Conserved o v (wake_source the_ws up) = asleep-Conserved config _ v
  Move-Conserved o v (wake_source the_poller up) = asleep-Conserved config _ v
  Move-Conserved o v (sleep_pop a up empty) = asleep-Conserved config _ v
  Move-Conserved o v (wake_writer up) = asleep-Conserved config _ v
  Move-Conserved o v (end the_ws a off) = source-Conserved config _ v
  Move-Conserved o v (end the_poller a off) = source-Conserved config _ v
  Move-Conserved o v (connect a up) = writer-Conserved config _ (rw a at v.recorded) v
  Move-Conserved o v (next_event a on) = writer-Conserved config _ (rw a at v.recorded) v
  Move-Conserved o v (end_writer a off) = writer-Conserved config _ (rw a at v.recorded) v
  Move-Conserved o v (pop the_ws a up sig free) =
      pop_step-Conserved config the_ws _ (ground arith) a free v
  Move-Conserved o v (pop the_poller a up sig free) =
      pop_step-Conserved config the_poller _ (ground arith) a free v
  Move-Conserved o v (insert e answer r a ran) = insert_step-Conserved config e answer r _ a ran v
  Move-Conserved o v signal = record {
    valid = v.valid;
    left = v.left;
    held = v.held;
    on_queue = v.on_queue;
    recorded = v.recorded;
  }
  Move-Conserved o v (exit_loop a on) = main-Conserved config _ (ground arith) v
  Move-Conserved o v (skip_ws a off) = main-Conserved config _ (ground arith) v
  Move-Conserved o v (stop_ws a on) = main-Conserved config _ (ground arith) v
  Move-Conserved o v (join_ws a done) = main-Conserved config _ (ground arith) v
  Move-Conserved o v (skip_poller a off) = main-Conserved config _ (ground arith) v
  Move-Conserved o v (stop_poller a on) = main-Conserved config _ (ground arith) v
  Move-Conserved o v (join_poller a done) = main-Conserved config _ (ground arith) v
  Move-Conserved o v (close_queue a) = record {
    valid = λ h. close-IsValid (v.valid (ground arith));
    left = v.left;
    held = v.held;
    on_queue = λ h. v.on_queue (ground arith);
    recorded = v.recorded;
  }
  Move-Conserved o v (stop_writer a) = main-Conserved config _ (ground arith) v
  Move-Conserved o v (join_writer a done) = main-Conserved config _ (ground arith) v
  Move-Conserved o v (destroy_queue a) = record {
    valid = λ h. absurd (omega (arith, h));
    left = v.left;
    held = v.held;
    on_queue = λ h. absurd (omega (arith, h));
    recorded = v.recorded;
  }
