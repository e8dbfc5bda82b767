-- ===== src/DbWriter/Drains.antt =====
-- A run of the database thread over what the queue holds, with a server that answers.
use yurei_jsonrpc_client.DbWriter.Backoff.{wait_for_connection-pauses}
use yurei_jsonrpc_client.EventQueue.Invariant.{pop_now-IsValid}
use yurei_jsonrpc_client.DbWriter.Sent.{statements-append}
use yurei_jsonrpc_client.EventQueue.Fifo.{pop_now-contents, slots_of_zero, contents}
use yurei_jsonrpc_client.EventQueue.Invariant.{IsValid}
use yurei_jsonrpc_client.DbWriter.Thread.{
  writer_thread, Writer, writer_loop, store_event, statements,
}
use yurei_jsonrpc_client.EventQueue.Ring.{pop_now, pop_waits, EventQueue, Schedule, others, pop}
use yurei_jsonrpc_client.Prelude.{
  ℕ, ap, append_assoc, arith, ◌∙◌, append-nil, replicate-append, inr, inl, sym, length-append,
  Option-cases, ◌≢◌, false, some, true, [], ◌∷◌, ◌++◌, length, replicate, Bool, List, ◌≡◌, refl,
}
use yurei_jsonrpc_client.Config.Fields.{Config}
use yurei_jsonrpc_client.EventQueue.Event.{Event}
use yurei_jsonrpc_client.DbWriter.Insert.{Statement, table_for_event, insert_event}

-- A pop from a queue that is not empty, with no other thread at the mutex.
pop-oldest :
    (later : Schedule) (q : EventQueue) (e : Event) (es : List Event)
    → IsValid q
    → contents q ≡ e ∷ es
    → (q' : EventQueue) × (pop ([] ∷ later) q ≡ some (some e, q', later))
      × IsValid q'
      × (contents q' ≡ es)
unfolding pop others
pop-oldest later q e es v held =
    let more : q.size ≢ 0 =
      λ z. let none_held = slots_of_zero q.buffer q.capacity q.head q.size z in cc in
    let free : pop_waits q ≡ false = unfold pop_waits in ground arith in
    let (split, answer) = pop_now-contents v more in
    let same : (pop_now q).0 ≡ some e = cc in
    ((pop_now q).1, rw (free, same) refl, pop_now-IsValid v free, cc)

insert_event-ok :
    (config : Config) (e : Event) (left : List Bool)
    → insert_event config e (replicate (length (statements config (e ∷ []))) true ++ left)
      ≡ some (record { done = true; sent = statements config (e ∷ []); answers = left })
unfolding insert_event statements
insert_event-ok config e left = elim (Option-cases (table_for_event e.kind config)) [
  | inl absent ↦ rw absent refl
  | inr (table, named) ↦ rw named refl
]

-- The thread took the events `es` and nothing else, sent each statement of theirs once, and left the
-- events `rest` on the queue.
pub record Drained (config : Config) (es rest : List Event) (w w' : Writer) : Type 0 where
  pub took : w'.taken ≡ w.taken ++ es
  pub sent_is : w'.sent ≡ w.sent ++ statements config es
  pub left : contents w'.queue ≡ rest

replicate-statements :
    (config : Config) (e : Event) (es : List Event)
    → replicate (length (statements config (e ∷ es))) true
      ≡ replicate (length (statements config (e ∷ []))) true
        ++ replicate (length (statements config es)) true
replicate-statements config e es =
    let first = length (statements config (e ∷ [])) in
    let rest = length (statements config es) in
    rw
      (
        statements-append config (e ∷ []) es,
        length-append (statements config (e ∷ [])) (statements config es),
      )
      (sym (replicate-append first rest true))

store_event-ok :
    (config : Config) (e : Event) (left : List Bool) (w : Writer)
    → w.inserts ≡ replicate (length (statements config (e ∷ []))) true ++ left
    → store_event config e w
      ≡ some (record w { inserts = left; sent = w.sent ++ statements config (e ∷ []) })
unfolding store_event
store_event-ok config e left w answers = rw (answers, insert_event-ok config e left) refl

writer_loop-Drained :
    (config : Config) (es rest : List Event) (w : Writer)
    → IsValid w.queue
    → contents w.queue ≡ es ++ rest
    → w.times ≡ replicate (length es) []
    → w.inserts ≡ replicate (length (statements config es)) true
    → (w' : Writer) × (writer_loop config (replicate (length es) true ++ false ∷ []) w ≡ some w')
      × Drained config es rest w w'
unfolding writer_loop
writer_loop-Drained config [] rest w v held times answers = (
  w,
  refl,
  record {
    took = sym (append-nil w.taken);
    sent_is = unfold statements in sym (append-nil w.sent);
    left = held;
  },
)
writer_loop-Drained config (e ∷ es) rest w v held times answers =
    let later : Schedule = replicate (length es) [] in
    let (q, popped, vq, left) = pop-oldest later w.queue e (es ++ rest) v held in
    let w1 : Writer = record w { queue = q; times = later; taken = w.taken ++ e ∷ [] } in
    let stored =
      store_event-ok config e (replicate (length (statements config es)) true) w1
        (answers ∙ replicate-statements config e es) in
    let w2 : Writer = record w1 {
      inserts = replicate (length (statements config es)) true;
      sent = w.sent ++ statements config (e ∷ []);
    } in
    let (w3, ran, d) = writer_loop-Drained config es rest w2 vq left refl refl in
    (
      w3,
      rw (times, popped, stored) ran,
      record {
        took = d.took ∙ append_assoc w.taken (e ∷ []) es;
        sent_is =
            d.sent_is
            ∙ append_assoc w.sent (statements config (e ∷ [])) (statements config es)
            ∙ ap (λ (l : List Statement). w.sent ++ l) (sym (statements-append config (e ∷ []) es));
        left = d.left;
      },
    )

-- A database thread on a valid queue that reads `running` as true once for each of the first
-- events of the queue, and then as false, with no other thread at the mutex, a connection after
-- any number of failures, and inserts that succeed, ends: it took these events, sent the statement
-- of each that has a table, once and in order, and left the others on the queue, also when the
-- queue is closed.
pub writer_thread-Drained :
    (config : Config) (es rest : List Event) (failures : ℕ) (w : Writer)
    → IsValid w.queue
    → contents w.queue ≡ es ++ rest
    → w.times ≡ replicate (length es) []
    → w.inserts ≡ replicate (length (statements config es)) true
    → w.connects ≡ replicate failures false ++ true ∷ []
    → (w' : Writer) × (writer_thread config (replicate (length es) true ++ false ∷ []) w ≡ some w')
      × Drained config es rest w w'
unfolding writer_thread
writer_thread-Drained config es rest failures w v held times answers connected =
    let (w', ran, d) =
      writer_loop-Drained config es rest (record w { connects = [] }) v held times answers in
    (
      w',
      rw (connected, wait_for_connection-pauses failures []) ran,
      record { took = d.took; sent_is = d.sent_is; left = d.left },
    )
