-- ===== src/DbWriter/Thread.antt =====
-- `writer_thread`: connect, then take events and insert them, one after the other.
use yurei_jsonrpc_client.Prelude.{
  Bool, true, false, if◌then◌else◌, Option, none, some, List, [], ◌∷◌, ◌++◌, option_case, ◌>>=◌,
}
use yurei_jsonrpc_client.Config.Fields.{Config}
use yurei_jsonrpc_client.EventQueue.Event.{Event}
use yurei_jsonrpc_client.EventQueue.Ring.{EventQueue, Schedule, pop}
use yurei_jsonrpc_client.DbWriter.Backoff.{wait_for_connection}
use yurei_jsonrpc_client.DbWriter.Insert.{Statement, insert_event, table_for_event, statement}

-- The queue, what the other threads and the server are yet to do, and what the thread has done: the
-- events that it took and the statements that it sent.
pub record Writer : Type 0 where
  pub queue : EventQueue
  pub times : Schedule
  pub inserts : List Bool
  pub connects : List Bool
  pub taken : List Event
  pub sent : List Statement

-- `wait_for_connection` on the thread's answers.
abbrev pub connect : Writer → Option Writer
connect w = do (pauses, left) ← wait_for_connection w.connects; some (record w { connects = left })

-- The body of the loop for an event.
unfoldable pub store_event : Config → Event → Writer → Option Writer
store_event config event w = do
  r ← insert_event config event w.inserts
  let w' : Writer = record w { inserts = r.answers; sent = w.sent ++ r.sent }
  if r.done then some w' else connect w'

-- The loop; the list holds the coming readings of the flag `running`. The result is the state when
-- the loop has ended; `none` means that the readings or the answers ended first.
unfoldable pub writer_loop : Config → List Bool → Writer → Option Writer
writer_loop config [] w = none
writer_loop config (false ∷ flags) w = some w
writer_loop config (true ∷ flags) w = do
  (event, queue, times) ← pop w.times w.queue
  let w' : Writer = record w { queue = queue; times = times }
  option_case event (some w') λ e. do
    w'' ← store_event config e (record w' { taken = w.taken ++ e ∷ [] })
    writer_loop config flags w''

unfoldable pub writer_thread : Config → List Bool → Writer → Option Writer
writer_thread config flags w = do w' ← connect w; writer_loop config flags w'

-- The statement of an event, none if it has no table.
unfoldable pub statements : Config → List Event → List Statement
statements config [] = []
statements config (e ∷ es) =
    option_case (table_for_event e.kind config) [] (λ table. statement table e ∷ [])
    ++ statements config es
