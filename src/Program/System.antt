-- ===== src/Program/System.antt =====
-- The threads of the program together: `main` from its loop on, the two sources and the database
-- thread, one critical section or one test of a flag at a time, in any order.
pub mod Invariant
pub mod Conserved
pub mod Runs
pub mod Waiting
pub mod Work
pub mod Ending
pub mod Stuck
pub mod Simulated
pub mod Written
mod Tests
use yurei_jsonrpc_client.Prelude.{
  success, failure, some, [], false, ◌∷◌, ◌≡◌, true, if◌then◌else◌, ◌++◌, option_case, Status, Bool,
  List,
}
use yurei_jsonrpc_client.Config.Fields.{Config}
use yurei_jsonrpc_client.EventQueue.Event.{Event}
use yurei_jsonrpc_client.EventQueue.Ring.{
  EventQueue, push_waits, push_now, pop_waits, pop_now, close, destroy,
}
use yurei_jsonrpc_client.Parser.Json.{CJson}
use yurei_jsonrpc_client.Parser.Extract.{message_events}
use yurei_jsonrpc_client.DbWriter.Insert.{Statement, Inserted, insert_event}

-- Where `ws_thread` or `poller_thread` stands. A round hands messages to the parser; the list holds
-- the events of the message at hand that are still to be pushed.
pub data Source : Type 0 where
  starting : Source  -- before the context or the handle is there
  waiting : Source  -- at the test of `running`
  serving : List Event → Source
  ended : Source

pub record SourceThread : Type 0 where
  pub running : Bool
  pub at : Source

-- Where `writer_thread` stands.
pub data WriterAt : Type 0 where
  connecting : WriterAt  -- in `wait_for_connection`
  looping : WriterAt  -- at the test of `running`
  popping : WriterAt  -- in `yurei_queue_pop`
  inserting : Event → WriterAt
  finished : WriterAt

-- Where `main` stands.
pub data Phase : Type 0 where
  main_loop stopping_ws joining_ws stopping_poller joining_poller : Phase
  closing stopping_writer joining_writer destroying exited : Phase

-- What the threads share. A thread is asleep in `pthread_cond_wait`: a source in its push, the
-- database thread in its pop. The last three lists are no state of the program: the events that a push
-- accepted, those that the writer took, and the statements that it sent.
pub record System : Type 0 where
  pub queue : EventQueue
  pub ws : SourceThread
  pub poller : SourceThread
  pub writer_running : Bool
  pub writer : WriterAt
  pub ws_asleep : Bool
  pub poller_asleep : Bool
  pub writer_asleep : Bool
  pub phase : Phase
  pub should_exit : Bool
  pub accepted : List Event
  pub taken : List Event
  pub sent : List Statement

-- The two sources.
pub data Who : Type 0 where
  the_ws the_poller : Who

abbrev pub source : Who → System → SourceThread
source the_ws s = s.ws
source the_poller s = s.poller

abbrev pub set_source : Who → SourceThread → System → System
set_source the_ws t s = record s { ws = t }
set_source the_poller t s = record s { poller = t }

-- A source goes on to another place.
abbrev pub goes : Who → Source → System → System
goes w a s = set_source w (record { running = (source w s).running; at = a }) s

abbrev pub kept_if : Status → Event → List Event → List Event
kept_if success e es = es ++ e ∷ []
kept_if failure e es = es

-- Whether a source is asleep on `cond_push`.
abbrev pub asleep : Who → System → Bool
asleep the_ws s = s.ws_asleep
asleep the_poller s = s.poller_asleep

abbrev pub set_asleep : Who → Bool → System → System
set_asleep the_ws b s = record s { ws_asleep = b }
set_asleep the_poller b s = record s { poller_asleep = b }

abbrev pub other : Who → Who
other the_ws = the_poller
other the_poller = the_ws

-- Whom `pthread_cond_signal` on `cond_push` can wake: a source that is asleep, if one of them is.
abbrev pub IsSignalled : Who → System → Type 0
IsSignalled w s = asleep w s ≡ false → asleep (other w) s ≡ false

-- An accepted push signals `cond_pop`, on which the database thread alone can be asleep.
abbrev pub asleep_after : Status → Bool → Bool
asleep_after success b = false
asleep_after failure b = b

-- The critical section of a push that does not wait.
unfoldable pub push_step : Event → System → System
unfolding push_now
push_step e s = record s {
  queue = (push_now s.queue e).1;
  accepted = kept_if (push_now s.queue e).0 e s.accepted;
  writer_asleep = asleep_after (push_now s.queue e).0 s.writer_asleep;
}

-- The critical section of a pop that does not wait; one that hands out an event signals `cond_push`.
unfoldable pub pop_step : Who → System → System
unfolding pop_now
pop_step w s =
    let q = (pop_now s.queue).1 in
    option_case (pop_now s.queue).0 (record s { queue = q; writer = finished })
      λ e.
        set_asleep w false (record s { queue = q; writer = inserting e; taken = s.taken ++ e ∷ [] })

-- The critical section of the close, which wakes all that sleep.
abbrev pub close_step : System → System
close_step s = record s {
  queue = close s.queue;
  ws_asleep = false;
  poller_asleep = false;
  writer_asleep = false;
}

unfoldable pub insert_step : Inserted → System → System
insert_step r s = record s {
  writer = if r.done then looping else connecting;
  sent = s.sent ++ r.sent;
}

-- What `main` has behind it when its loop begins: the threads that were started.
unfoldable pub start : Bool → Bool → EventQueue → System
start use_ws use_poller queue =
    let on : SourceThread = record { running = true; at = starting } in
    let off : SourceThread = record { running = false; at = ended } in
    record {
      queue = queue;
      ws = if use_ws then on else off;
      poller = if use_poller then on else off;
      writer_running = true;
      writer = connecting;
      ws_asleep = false;
      poller_asleep = false;
      writer_asleep = false;
      phase = main_loop;
      should_exit = false;
      accepted = [];
      taken = [];
      sent = [];
    }

-- `g_should_exit` is set.
abbrev pub handle_signal : System → System
handle_signal s = record s { should_exit = true }

-- The functions that stop the threads, up to the join: the flag is cleared.
abbrev pub ws_client_stop : SourceThread → SourceThread
ws_client_stop t = record { running = false; at = t.at }

abbrev pub db_writer_stop : System → System
db_writer_stop s = record s { writer_running = false }

-- The moves of the threads. A thread that sleeps goes on when it is woken, by a signal, by the broadcast
-- of the close, or for no reason, which POSIX allows. `online` says whether the database can be reached.
module _ (json : CJson) (config : Config) (use_ws online : Bool) where
  open json use {Item}

  pub data Move (s : System) : System → Type 0 where
    begin : (w : Who) → (source w s).at ≡ starting → Move s (goes w waiting s)
    fail :
        (w : Who)
        → (source w s).at ≡ starting
        → Move s (set_source w (record { running = false; at = ended }) s)
    enter :
        (w : Who)
        → (source w s).at ≡ waiting
        → (source w s).running ≡ true
        → Move s (goes w (serving []) s)
    receive :
        (w : Who) (root : Item)
        → (source w s).at ≡ serving []
        → Move s (goes w (serving (message_events json config root)) s)
    push :
        (w : Who) (e : Event) (es : List Event)
        → (source w s).at ≡ serving (e ∷ es)
        → asleep w s ≡ false
        → push_waits s.queue ≡ false
        → Move s (goes w (serving es) (push_step e s))
    sleep_push :
        (w : Who) (e : Event) (es : List Event)
        → (source w s).at ≡ serving (e ∷ es)
        → asleep w s ≡ false
        → push_waits s.queue ≡ true
        → Move s (set_asleep w true s)
    wake_source : (w : Who) → asleep w s ≡ true → Move s (set_asleep w false s)
    leave : (w : Who) → (source w s).at ≡ serving [] → Move s (goes w waiting s)
    end :
        (w : Who)
        → (source w s).at ≡ waiting
        → (source w s).running ≡ false
        → Move s (goes w ended s)
    connect : s.writer ≡ connecting → online ≡ true → Move s (record s { writer = looping })
    next_event :
        s.writer ≡ looping → s.writer_running ≡ true → Move s (record s { writer = popping })
    end_writer :
        s.writer ≡ looping → s.writer_running ≡ false → Move s (record s { writer = finished })
    pop :
        (w : Who)
        → s.writer ≡ popping
        → s.writer_asleep ≡ false
        → IsSignalled w s
        → pop_waits s.queue ≡ false
        → Move s (pop_step w s)
    sleep_pop :
        s.writer ≡ popping
        → s.writer_asleep ≡ false
        → pop_waits s.queue ≡ true
        → Move s (record s { writer_asleep = true })
    wake_writer : s.writer_asleep ≡ true → Move s (record s { writer_asleep = false })
    insert :
        (e : Event) (answer : Bool) (r : Inserted)
        → s.writer ≡ inserting e
        → insert_event config e (answer ∷ []) ≡ some r
        → Move s (insert_step r s)
    signal : Move s (handle_signal s)
    exit_loop :
        s.phase ≡ main_loop → s.should_exit ≡ true → Move s (record s { phase = stopping_ws })
    skip_ws : s.phase ≡ stopping_ws → use_ws ≡ false → Move s (record s { phase = stopping_poller })
    stop_ws :
        s.phase ≡ stopping_ws
        → use_ws ≡ true
        → Move s (record s { phase = joining_ws; ws = ws_client_stop s.ws })
    join_ws : s.phase ≡ joining_ws → s.ws.at ≡ ended → Move s (record s { phase = stopping_poller })
    skip_poller :
        s.phase ≡ stopping_poller → s.poller.running ≡ false → Move s (record s { phase = closing })
    stop_poller :
        s.phase ≡ stopping_poller
        → s.poller.running ≡ true
        → Move s (record s {
          phase = joining_poller;
          poller = record { running = false; at = s.poller.at };
        })
    join_poller :
        s.phase ≡ joining_poller → s.poller.at ≡ ended → Move s (record s { phase = closing })
    close_queue : s.phase ≡ closing → Move s (record (close_step s) { phase = stopping_writer })
    stop_writer :
        s.phase ≡ stopping_writer → Move s (record (db_writer_stop s) { phase = joining_writer })
    join_writer :
        s.phase ≡ joining_writer → s.writer ≡ finished → Move s (record s { phase = destroying })
    destroy_queue :
        s.phase ≡ destroying → Move s (record s { phase = exited; queue = destroy s.queue })

  pub data Run (s : System) : System → Type 0 where
    here : Run s s
    next : {t u : System} → Run s t → Move t u → Run s u
