-- ===== src/DbWriter/Sent.antt =====
-- The database thread sends the events that it takes, each once and in order.
use yurei_jsonrpc_client.Prelude.{
  ◌⊎◌, bind_some, ◌≡◌, refl, sym, ◌∙◌, ap, Bool, true, false, none, some, List, [], ◌∷◌, ◌++◌,
  append_assoc, append-nil, Option-cases, Bool-cases, inl, inr, eq_of_some, subst,
}
use yurei_jsonrpc_client.Config.Fields.{Config}
use yurei_jsonrpc_client.EventQueue.Event.{Event}
use yurei_jsonrpc_client.EventQueue.Ring.{EventQueue, Schedule, pop}
use yurei_jsonrpc_client.DbWriter.Backoff.{wait_for_connection}
use yurei_jsonrpc_client.DbWriter.Insert.{
  Statement, Inserted, insert_event, execute-sent, table_for_event, statement,
}
use yurei_jsonrpc_client.DbWriter.Thread.{
  Writer, connect, store_event, writer_loop, writer_thread, statements,
}

pub statements-append :
    (config : Config) (xs ys : List Event)
    → statements config (xs ++ ys) ≡ statements config xs ++ statements config ys
unfolding statements
statements-append config [] ys = refl
statements-append config (x ∷ xs) ys =
    rw (statements-append config xs ys)
      (sym (append_assoc _ (statements config xs) (statements config ys)))

pub insert_event-sent :
    (config : Config) (event : Event) (answers : List Bool) {r : Inserted}
    → insert_event config event answers ≡ some r
    → r.sent ≡ statements config (event ∷ [])
unfolding insert_event statements
insert_event-sent config event answers h = elim (Option-cases (table_for_event event.kind config)) [
  | inl absent ↦
      let skipped = eq_of_some (rw absent at h) in
      rw absent (subst (λ (r : Inserted). r.sent ≡ []) skipped refl)
  | inr (table, e) ↦ rw e (execute-sent (statement table event) answers (rw e at h))
]

-- Successive calls of `yurei_queue_pop` hand out the events of the list; behind them, one more call
-- may hand out none. The last two arguments are the schedule and the queue that they leave.
abbrev pub Pops : Schedule → EventQueue → List Event → Schedule → EventQueue → Type 0
Pops times q [] times' q' = ((times ≡ times') × (q ≡ q')) ⊎ (pop times q ≡ some (none, q', times'))
Pops times q (e ∷ es) times' q' =
    (q1 : EventQueue) × (times1 : Schedule) × (pop times q ≡ some (some e, q1, times1))
    × Pops times1 q1 es times' q'

-- What the thread has done between two states: the events that its pops handed out, and the statement
-- of each that has a table.
pub record Did (config : Config) (w w' : Writer) : Type 0 where
  pub new : List Event
  pub popped : Pops w.times w.queue new w'.times w'.queue
  pub took : w'.taken ≡ w.taken ++ new
  pub sent : w'.sent ≡ w.sent ++ statements config new

-- The thread has sent statements, with no pop.
record Sends (new : List Statement) (w w' : Writer) : Type 0 where
  same_times : w'.times ≡ w.times
  same_queue : w'.queue ≡ w.queue
  same_taken : w'.taken ≡ w.taken
  sent : w'.sent ≡ w.sent ++ new

connect-Sends : (w : Writer) {w' : Writer} → connect w ≡ some w' → Sends [] w w'
connect-Sends w {w'} h =
    let (p, waited, made) = bind_some (wait_for_connection w.connects) h in
    subst (Sends [] w) (eq_of_some made) (record {
      same_times = refl;
      same_queue = refl;
      same_taken = refl;
      sent = sym (append-nil w.sent);
    })

store_event-Sends :
    (config : Config) (event : Event) (w : Writer) {w' : Writer}
    → store_event config event w ≡ some w'
    → Sends (statements config (event ∷ [])) w w'
unfolding store_event
store_event-Sends config event w {w'} h =
    let (r, ran, rest) = bind_some (insert_event config event w.inserts) h in
    let after : Writer = record w { inserts = r.answers; sent = w.sent ++ r.sent } in
    let sent_is = insert_event-sent config event w.inserts ran in
    let stored : Sends (statements config (event ∷ [])) w after = record {
      same_times = refl;
      same_queue = refl;
      same_taken = refl;
      sent = ap (λ (l : List Statement). w.sent ++ l) sent_is;
    } in
    elim (Bool-cases r.done) [
      | inl ok ↦
          subst (Sends (statements config (event ∷ [])) w) (eq_of_some (rw ok at rest)) stored
      | inr failed ↦
          let c = connect-Sends after (rw failed at rest) in
          record {
            same_times = c.same_times;
            same_queue = c.same_queue;
            same_taken = c.same_taken;
            sent = c.sent ∙ append-nil after.sent ∙ stored.sent;
          }
    ]

writer_loop-Did :
    (config : Config) (flags : List Bool) (w : Writer) {w' : Writer}
    → writer_loop config flags w ≡ some w'
    → Did config w w'
unfolding writer_loop
writer_loop-Did config [] w h = cc
writer_loop-Did config (false ∷ flags) w h = subst (Did config w) (eq_of_some h) (record {
  new = [];
  popped = inl (refl, refl);
  took = sym (append-nil w.taken);
  sent = unfold statements in sym (append-nil w.sent);
})
writer_loop-Did config (true ∷ flags) w {w'} h = elim (Option-cases (pop w.times w.queue)) [
  | inl stuck ↦ let none_some = rw stuck at h in cc
  | inr ((none, queue, times), e) ↦ subst (Did config w) (eq_of_some (rw e at h)) (record {
    new = [];
    popped = inr e;
    took = sym (append-nil w.taken);
    sent = unfold statements in sym (append-nil w.sent);
  })
  | inr ((some event, queue, times), e) ↦
      let w1 : Writer = record w { queue = queue; times = times; taken = w.taken ++ event ∷ [] } in
      let (stored, ran, rest) = bind_some (store_event config event w1) (rw e at h) in
      let a = store_event-Sends config event w1 ran in
      let b = writer_loop-Did config flags stored rest in
      record {
        new = event ∷ b.new;
        popped = (queue, times, e, rw (a.same_times, a.same_queue) at b.popped);
        took = b.took ∙ rw a.same_taken (append_assoc w.taken (event ∷ []) b.new);
        sent =
            b.sent
            ∙ rw (a.sent, statements-append config (event ∷ []) b.new)
                (append_assoc w.sent (statements config (event ∷ [])) (statements config b.new));
      }
]

-- When the database thread ends, whatever the other threads and the server did: the events that
-- the successive calls of pop handed out are those that it took, and it sent the statement of each
-- of them that has a table, once and in the order of the pops, and nothing else; an event whose
-- insert failed is not sent again.
pub writer_thread-Did :
    (config : Config) (flags : List Bool) (w : Writer) {w' : Writer}
    → writer_thread config flags w ≡ some w'
    → Did config w w'
unfolding writer_thread
writer_thread-Did config flags w h =
    let (w1, connected, rest) = bind_some (connect w) h in
    let a = connect-Sends w connected in
    let b = writer_loop-Did config flags w1 rest in
    record {
      new = b.new;
      popped = rw (a.same_times, a.same_queue) at b.popped;
      took = b.took ∙ rw a.same_taken refl;
      sent = b.sent ∙ rw (a.sent, append-nil w.sent) refl;
    }
