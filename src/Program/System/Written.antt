-- ===== src/Program/System/Written.antt =====
-- The database thread, run with no other thread at the mutex, is a chain of moves.
use yurei_jsonrpc_client.Prelude.{
  ◌≡◌, refl, sym, ap, Bool-cases, inl, inr, Option, Option-cases, bind_some, eq_of_some, some, none,
  List, [], ◌∷◌, ◌++◌, false, true, Bool, ◌⊎◌, subst, if◌then◌else◌,
}
use yurei_jsonrpc_client.Config.Fields.{Config}
use yurei_jsonrpc_client.EventQueue.Event.{Event}
use yurei_jsonrpc_client.EventQueue.Ring
use yurei_jsonrpc_client.EventQueue.Ring.{EventQueue, Action, Schedule, others, pop_now, pop_waits}
use yurei_jsonrpc_client.Parser.Json.{CJson}
use yurei_jsonrpc_client.DbWriter.Backoff.{wait_for_connection}
use yurei_jsonrpc_client.DbWriter.Insert.{
  Statement, Inserted, insert_event, execute, statement, table_for_event,
}
use yurei_jsonrpc_client.DbWriter.Thread
use yurei_jsonrpc_client.DbWriter.Thread.{Writer, store_event, writer_loop, writer_thread}
use yurei_jsonrpc_client.Program.System.{
  the_ws, System, WriterAt, connecting, looping, popping, inserting, finished, pop_step,
  insert_step, Move, connect, next_event, pop, insert, Run, here, next,
}
use yurei_jsonrpc_client.Program.System.Simulated.{Quiet, awakened, join-Run}

-- The system when the database thread has come to a place, with what it took and sent, while no thread
-- sleeps.
abbrev pub shows : Writer → WriterAt → System → System
shows w at s = awakened (record s { queue = w.queue; writer = at; taken = w.taken; sent = w.sent })

pop-Quiet :
    (times : Schedule) (q : EventQueue) {r : Option Event × EventQueue × Schedule}
    → Quiet times
    → Ring.pop times q ≡ some r
    → (later : Schedule) × Quiet later
      × (pop_waits q ≡ false)
      × (r ≡ ((pop_now q).0, (pop_now q).1, later))
unfolding Ring.pop others
pop-Quiet [] q quiet h = cc
pop-Quiet ([] ∷ later) q {r} quiet h = elim (Bool-cases (pop_waits q)) [
  | inl waits ↦ pop-Quiet later q quiet.1 (rw waits at h)
  | inr free ↦ (later, quiet.1, free, sym (eq_of_some (rw free at h)))
]
pop-Quiet ((a ∷ as') ∷ later) q quiet h = let bad = quiet.0 in cc

-- What a call shows of the answers of the server: its success and what was sent.
abbrev Alike : Inserted → Option Inserted → Type 0
Alike r o = (one : Inserted) × (o ≡ some one) × (one.done ≡ r.done) × (one.sent ≡ r.sent)

execute-one :
    (s : Statement) (answers : List Bool) {r : Inserted}
    → execute s answers ≡ some r
    → (answer : Bool) × Alike r (execute s (answer ∷ []))
execute-one s [] h = cc
execute-one s (a ∷ left) {r} h =
    let same = eq_of_some {b = r} h in
    (
      a,
      (record { done = a; sent = s ∷ []; answers = [] }, refl, rw (← same) refl, rw (← same) refl),
    )

-- An insert looks at the next answer alone.
insert_event-one :
    (config : Config) (e : Event) (answers : List Bool) {r : Inserted}
    → insert_event config e answers ≡ some r
    → (answer : Bool) × Alike r (insert_event config e (answer ∷ []))
unfolding insert_event
insert_event-one config e answers {r} h = elim (Option-cases (table_for_event e.kind config)) [
  | inl absent ↦
      let same = eq_of_some {b = r} (rw absent at h) in
      (
        true,
        (
          record { done = true; sent = []; answers = true ∷ [] },
          rw absent refl,
          rw (← same) refl,
          rw (← same) refl,
        ),
      )
  | inr (table, named) ↦ rw named (execute-one (statement table e) answers (rw named at h))
]

module _ (json : CJson) (config : Config) (use_ws : Bool) where
  -- A chain of moves while the database can be reached.
  abbrev Chain : System → System → Type 0
  Chain s t = Run json config use_ws true s t

  -- The thread has come from one place to the test of `running`, or to its end.
  record Came (w : Writer) (at : WriterAt) (w' : Writer) (s : System) : Type 0 where
    place : WriterAt
    stopped : (place ≡ looping) ⊎ (place ≡ finished)
    run : Chain (shows w at s) (shows w' place s)

  pop-Move :
      (w : Writer) (s : System)
      → pop_waits w.queue ≡ false
      → Move json config use_ws true (shows w popping s) (pop_step the_ws (shows w popping s))
  pop-Move w s free = pop the_ws refl refl (λ up. refl) free

  -- An event is inserted, and the thread is back at its loop.
  store_event-Run :
      (e : Event) (w : Writer) (s : System) {w' : Writer}
      → store_event config e w ≡ some w'
      → Chain (shows w (inserting e) s) (shows w' looping s) × (w'.times ≡ w.times)
  unfolding store_event
  store_event-Run e w s {w'} h =
      let (r, ran, rest) = bind_some (insert_event config e w.inserts) h in
      let (answer, (one, inserted, done, sent)) = insert_event-one config e w.inserts ran in
      let w1 : Writer = record w { inserts = r.answers; sent = w.sent ++ r.sent } in
      let stored : Move json config use_ws true (shows w (inserting e) s)
          (shows w1 (if r.done then looping else connecting) s) =
        rw (← done, ← sent) (unfold insert_step in insert e answer one refl inserted) in
      elim (Bool-cases r.done) [
        | inl ok ↦
            let same : w1 ≡ w' = eq_of_some (rw ok at rest) in
            (
              subst (λ (x : Writer). Chain (shows w (inserting e) s) (shows x looping s)) same
                  (next here (rw ok at stored)),
              ap (λ (x : Writer). x.times) (sym same),
            )
        | inr lost ↦
            let (p, waited, made) = bind_some (wait_for_connection w.connects) (rw lost at rest) in
            let same : record w1 { connects = p.1 } ≡ w' = eq_of_some made in
            (
              subst (λ (x : Writer). Chain (shows w (inserting e) s) (shows x looping s)) same
                  (next (next here (rw lost at stored)) (connect refl refl)),
              ap (λ (x : Writer). x.times) (sym same),
            )
      ]

  -- The thread when a pop has returned.
  abbrev popped : Writer → Schedule → Writer
  popped w later = record w { queue = (pop_now w.queue).1; times = later }

  take-Run :
      (e : Event) (w : Writer) (later : Schedule) (s : System)
      → s.writer_running ≡ true
      → pop_waits w.queue ≡ false
      → (pop_now w.queue).0 ≡ some e
      → Chain
          (shows w looping s)
          (shows (record (popped w later) { taken = w.taken ++ e ∷ [] }) (inserting e) s)
  unfolding pop_step
  take-Run e w later s running free taken =
      let m = pop-Move w s free in next (next here (next_event refl running)) (rw taken at m)

  close-Run :
      (w : Writer) (later : Schedule) (s : System)
      → s.writer_running ≡ true
      → pop_waits w.queue ≡ false
      → (pop_now w.queue).0 ≡ none
      → Chain (shows w looping s) (shows (popped w later) finished s)
  unfolding pop_step
  close-Run w later s running free gone =
      let m = pop-Move w s free in next (next here (next_event refl running)) (rw gone at m)

  writer_loop-Came :
      (flags : List Bool) (w : Writer) (s : System) {w' : Writer}
      → s.writer_running ≡ true
      → Quiet w.times
      → writer_loop config flags w ≡ some w'
      → Came w looping w' s
  unfolding writer_loop
  writer_loop-Came [] w s running quiet h = cc
  writer_loop-Came (false ∷ flags) w s {w'} running quiet h =
      let same : w ≡ w' = eq_of_some h in
      record {
        place = looping;
        stopped = inl refl;
        run = subst (λ (x : Writer). Chain (shows w looping s) (shows x looping s)) same here;
      }
  writer_loop-Came (true ∷ flags) w s {w'} running quiet h =
      let (r, ran, after) = bind_some (Ring.pop w.times w.queue) h in
      let (later, left, free, r_is) = pop-Quiet w.times w.queue quiet ran in
      let after' = rw r_is at after in
      elim (Option-cases (pop_now w.queue).0) [
        | inl gone ↦
            let same : popped w later ≡ w' = eq_of_some (rw gone at after') in
            record {
              place = finished;
              stopped = inr refl;
              run =
                  subst (λ (x : Writer). Chain (shows w looping s) (shows x finished s)) same
                    (close-Run w later s running free gone);
            }
        | inr (e, taken) ↦
            let w1 : Writer = record (popped w later) { taken = w.taken ++ e ∷ [] } in
            let (w2, stored, rest) = bind_some (store_event config e w1) (rw taken at after') in
            let (back, times) = store_event-Run e w1 s stored in
            let c = writer_loop-Came flags w2 s running (rw times left) rest in
            record {
              place = c.place;
              stopped = c.stopped;
              run =
                  join-Run json config use_ws true (take-Run e w later s running free taken)
                    (join-Run json config use_ws true back c.run);
            }
      ]

  -- The database thread, run with no other thread at the mutex and none asleep, is a chain of
  -- moves while the database can be reached: if writer_thread returns, the thread can move from
  -- its start to the test of `running`, or to its end, with the queue that the call left, the
  -- events that it took and the statements that it sent; nothing else has changed.
  pub writer_thread-Run :
      (flags : List Bool) (w : Writer) (s : System) {w' : Writer}
      → s.writer_running ≡ true
      → Quiet w.times
      → writer_thread config flags w ≡ some w'
      → (place : WriterAt) × ((place ≡ looping) ⊎ (place ≡ finished))
        × Run json config use_ws true (shows w connecting s) (shows w' place s)
  unfolding writer_thread
  writer_thread-Run flags w s {w'} running quiet h =
      let (w1, connected, looped) = bind_some (Thread.connect w) h in
      let (p, waited, made) = bind_some (wait_for_connection w.connects) connected in
      let same : record w { connects = p.1 } ≡ w1 = eq_of_some made in
      let c =
        writer_loop-Came flags (record w { connects = p.1 }) s running quiet
          (rw (← same) at looped) in
      (c.place, c.stopped, join-Run json config use_ws true (next here (connect refl refl)) c.run)
