-- ===== src/DbWriter/Tests.antt =====
-- Runs of the database thread, and its theorems at concrete inputs.
use yurei_jsonrpc_client.EventQueue.Fifo.{contents}
use yurei_jsonrpc_client.DbWriter.Drains.{writer_thread-Drained, Drained}
use yurei_jsonrpc_client.EventQueue.Invariant.{IsValid}
use yurei_jsonrpc_client.Prelude.{
  option_case, ◌≡◌, refl, true, false, some, [], ◌∷◌, ◌++◌, arith, length, replicate,
}
use yurei_jsonrpc_client.CString.{codes}
use yurei_jsonrpc_client.Config.Fields.{Config}
use yurei_jsonrpc_client.EventQueue.Event.{Event, blank_event, pumpfun}
use yurei_jsonrpc_client.EventQueue.Ring.{
  next_index, shut, pop, others, perform, pop_waits, pop_now, close,
}
use yurei_jsonrpc_client.DbWriter.Backoff.{
  wait_for_connection, pauses_from, wait_for_connection-pauses,
}
use yurei_jsonrpc_client.DbWriter.Insert.{
  statement, insert_event, before_table, after_table, statement-query, table_for_event,
}
use yurei_jsonrpc_client.DbWriter.Thread.{
  statements, Writer, writer_thread, writer_loop, store_event,
}
use yurei_jsonrpc_client.DbWriter.Sent.{Did, writer_thread-Did}

abbrev config : Config
config = record {
  rpc_endpoint = [];
  wss_endpoint = [];
  rpc_api_key = [];
  rpc_mode = codes "ws";
  poll_interval_ms = 1000;
  ws_backoff_ms = 1000;
  ws_backoff_max_ms = 60000;
  queue_capacity = 2;
  batch_size = 20;
  rate_limit_rps = 10;
  log_color = true;
  pumpfun_program = codes "6EF8";
  raydium_program = codes "675k";
  pumpfun_table = codes "t";
  raydium_table = [];
  pg_conninfo = [];
  log_level = codes "info";
}

abbrev trade : Event
trade = record blank_event { kind = pumpfun; slot = 42 }

-- One event is held, and the queue is closed behind it.
abbrev writer : Writer
writer = record {
  queue = record {
    buffer = trade ∷ blank_event ∷ [];
    capacity = 2;
    head = 0;
    tail = 1;
    size = 1;
    closed = false;
  };
  times = [] ∷ (shut ∷ []) ∷ [];
  inserts = false ∷ [];
  connects = true ∷ false ∷ true ∷ [];
  taken = [];
  sent = [];
}

-- The insert fails, the thread connects again, and ends at the closed queue.
ends : Writer
unfolding writer_thread writer_loop store_event insert_event table_for_event wait_for_connection pop
    others perform pop_waits pop_now close
ends = option_case (writer_thread config (true ∷ true ∷ []) writer) writer (λ w. w)

runs : writer_thread config (true ∷ true ∷ []) writer ≡ some ends
unfolding ends
runs = refl

-- The failed event is taken, and is not sent again.
failed_once : (length ends.taken ≡ 1) × (length ends.sent ≡ 1)
unfolding ends
failed_once = (refl, refl)

writer_thread-Did_example : Did config writer ends
writer_thread-Did_example = writer_thread-Did config (true ∷ true ∷ []) writer runs

pauses_of_six_failures :
    wait_for_connection (replicate 6 false ++ true ∷ []) ≡ some (pauses_from 0 6, [])
pauses_of_six_failures = wait_for_connection-pauses 6 []

six_pauses : pauses_from 0 6 ≡ 1000000 ∷ 2000000 ∷ 4000000 ∷ 8000000 ∷ 16000000 ∷ 30000000 ∷ []
unfolding pauses_from
six_pauses = refl

query_whole :
    (statement (codes "pumpfun_trades") trade).query
    ≡ before_table ++ (codes "pumpfun_trades" ++ after_table)
query_whole = statement-query (codes "pumpfun_trades") trade (omega arith)

-- Two events are held, and the flag is cleared after the first.
abbrev two_held : Writer
two_held = record writer {
  queue = record {
    buffer = trade ∷ record trade { slot = 43 } ∷ [];
    capacity = 2;
    head = 0;
    tail = 0;
    size = 2;
    closed = true;
  };
  times = [] ∷ [];
  inserts = true ∷ [];
  connects = false ∷ true ∷ [];
}

two_held-IsValid : IsValid two_held.queue
two_held-IsValid = omega arith

held_in_order : contents two_held.queue ≡ trade ∷ record trade { slot = 43 } ∷ []
unfolding next_index
held_in_order = refl

one_insert : two_held.inserts ≡ replicate (length (statements config (trade ∷ []))) true
unfolding statements table_for_event
one_insert = refl

writer_thread-Drained_example :
    (w' : Writer) × (writer_thread config (true ∷ false ∷ []) two_held ≡ some w')
    × Drained config (trade ∷ []) (record trade { slot = 43 } ∷ []) two_held w'
writer_thread-Drained_example =
    writer_thread-Drained config (trade ∷ []) (record trade { slot = 43 } ∷ []) 1 two_held
      two_held-IsValid held_in_order refl one_insert refl
