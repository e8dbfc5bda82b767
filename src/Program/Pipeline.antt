-- ===== src/Program/Pipeline.antt =====
-- The parts together: a message of a source through the parser, the queue and the database thread.
use yurei_jsonrpc_client.Parser.Handling.{handle_message-accepts}
use yurei_jsonrpc_client.Parser.Extract.{message_events}
use yurei_jsonrpc_client.DbWriter.Drains.{writer_thread-Drained}
use yurei_jsonrpc_client.EventQueue.Fifo.{contents}
use yurei_jsonrpc_client.Prelude.{
  append-nil, sym, ◌∙◌, ◌≤◌, refl, ◌++◌, ◌+◌, ◌∷◌, false, true, some, [], ℕ, ◌≡◌, length, Option,
  replicate, Bytes, List,
}
use yurei_jsonrpc_client.Config.Fields.{Config}
use yurei_jsonrpc_client.EventQueue.Event.{Event}
use yurei_jsonrpc_client.EventQueue.Ring.{EventQueue}
use yurei_jsonrpc_client.EventQueue.Invariant.{IsValid}
use yurei_jsonrpc_client.Parser.Json.{CJson}
use yurei_jsonrpc_client.Parser.Message.{Handled, handle_message}
use yurei_jsonrpc_client.DbWriter.Thread.{Writer, writer_thread, statements}
use yurei_jsonrpc_client.Program.Start.{db_writer_start}

-- The events `es` went from the queue of a handled message into the database: the thread was started on
-- that queue, ended, took them, sent their statements and left the queue empty.
pub record Stored (config : Config) (es : List Event) (queue : EventQueue) : Type 0 where
  pub started : Writer
  pub ended : Writer
  pub starts :
      db_writer_start queue
        (replicate (length es) [])
        (replicate (length (statements config es)) true)
        (true ∷ [])
        true
      ≡ some started
  pub runs : writer_thread config (replicate (length es) true ++ false ∷ []) started ≡ some ended
  pub took : ended.taken ≡ es
  pub sent_is : ended.sent ≡ statements config es
  pub empty : contents ended.queue ≡ []

db_writer_start-Stored :
    (config : Config) (es : List Event) (q : EventQueue)
    → IsValid q
    → contents q ≡ es
    → Stored config es q
db_writer_start-Stored config es q v held =
    let w : Writer = record {
      queue = q;
      times = replicate (length es) [];
      inserts = replicate (length (statements config es)) true;
      connects = true ∷ [];
      taken = [];
      sent = [];
    } in
    let (w', ran, d) =
      writer_thread-Drained config es [] 0 w v (held ∙ sym (append-nil es)) refl refl refl in
    record {
      started = w;
      ended = w';
      starts = unfold db_writer_start in refl;
      runs = ran;
      took = d.took;
      sent_is = d.sent_is;
      empty = d.left;
    }

module _ (json : CJson) (config : Config) where
  open json use {Item, parse}

  -- A message that parses, into a valid open queue with room for all its events, and then a
  -- database thread started on that queue, with no other thread at the mutex, a first connection
  -- and inserts that succeed, and `running` read as true once for each event held: both return,
  -- and the statements sent are those of the events that the queue held before and then of the
  -- events of the message, each once and in order; the queue is empty.
  pub handle_message-Stored :
      (text : Bytes) (root : Item) (q : EventQueue) (out : Option ℕ)
      → parse text ≡ some root
      → IsValid q
      → q.closed ≡ false
      → q.size + length (message_events json config root) ≤ q.capacity
      → (h : Handled) × (handle_message json config text q
            (replicate (length (message_events json config root)) [])
            out
          ≡ some h)
        × Stored config (contents q ++ message_events json config root) h.queue
  handle_message-Stored text root q out parsed v open' room =
      let (h, ran, a) = handle_message-accepts json config text root q out parsed v open' room in
      (
        h,
        ran,
        db_writer_start-Stored config (contents q ++ message_events json config root) h.queue
            a.valid a.held,
      )
