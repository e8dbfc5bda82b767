-- ===== src/Lib.antt =====
-- The Yurei JSON-RPC client (README.md): a program in C that receives Solana logs over a WebSocket
-- or by HTTP polling, decodes the payloads of the PumpFun and Raydium programs, and stores them in
-- PostgreSQL.
--
-- The parts and how they interact. src/main.c loads a configuration (src/config.c), starts the
-- database thread (src/db_writer.c) and then the WebSocket client (src/websocket_client.c), the HTTP
-- poller (src/http_poller.c) or both. These two hand the text of each message to the parser
-- (src/parser.c), which decodes the payloads of the logs and pushes an event for each to the queue
-- (src/event_queue.c). The database thread pops the events and inserts them. The poller waits for the
-- rate limiter (src/rate_limiter.c) before each request, and counts in the metrics (src/metrics.c).
--
-- The files, by the source that they model:
--   Config (src/config.c, include/config.h): Fields has `YureiConfig`, Settings `apply_key_value` with
--     the functions that it uses, Files `trim` and `load_env_file`, and Load the rest up to
--     `yurei_config_load`, and Print the messages of `yurei_config_print`. Fits, Numbers, Lines, Ignored,
--     Texts, Secrets and Printed hold the theorems; Entries and Values the lemmas on one line of a file.
--   Logging (src/logging.c, src/config.c): the filter, the line, and `configure_log_level`.
--   EventQueue (src/event_queue.c, include/event_queue.h): Event has `YureiEvent`; Ring has
--     `YureiEventQueue` and its operations; Fifo, Calls, Returns, Log, Invariant and Blocked hold the
--     theorems, against a list of events as the specification.
--   Parser (src/parser.c): Base64 has the table and `decode_base64`; Message has the functions from
--     `program_to_kind` to `yurei_parser_handle_message`; Json is the interface to cJSON; Extract is
--     the specification, the list of the events of a message.
--   RateLimiter (src/rate_limiter.c) and Metrics (src/metrics.c): all operations, with the report of
--     `yurei_metrics_log`.
--   DbWriter (src/db_writer.c): Backoff has `wait_for_connection`, Insert has `table_for_event` and
--     `insert_event`, Thread has `writer_thread`; Sent and Drains hold what the thread sends.
--   Mentions (src/http_poller.c, src/websocket_client.c): `build_mentions_array`.
--   HttpPoller (src/http_poller.c): `write_callback` and `poller_thread`, with the rounds of its
--     loop. Rounds, Slots and Paced hold the theorems, on one round and on any number of them.
--   WebsocketClient (src/websocket_client.c): Endpoint has `parse_endpoint`; the parent has
--     `schedule_subscription` and `ws_callback`; Retry has the backoff of `ws_thread`, and
--     Thread `establish_connection` and the rounds of the thread.
--   Program (src/main.c): Start has the functions that start the threads, Main the arguments, the
--     startup, the main loop and the shutdown, and Print what is printed up to the banner. Order is about
--     the lifetimes of the shared objects, Loaded about what is sent with a configuration that was
--     loaded, Secrets about what is printed with one, and Pipeline about the way of a message from the
--     parser to the database. System puts the threads together: it has the moves of the sources, of the
--     database thread and of `main` with its signal handler; Invariant, Conserved and Waiting hold what
--     every move keeps, Work a measure of what is left to do, and Runs, Ending and Stuck the theorems on
--     whole runs; Simulated and Written compare the moves with the functions of the components.
--   Prelude and CString: the helpers that all share, and what is used of the C library.
--
-- Conventions. A C string is the list of its bytes before the terminator; NULL is `none`, and a
-- status is `success` or `failure`. Sizes are numbers modulo 2 ^ 64, and 32-bit numbers modulo
-- 2 ^ 32, where the code can reach the bound. The doubles of the rate limiter are exact multiples of
-- 10 ^ -9. The tests of pointers that no caller passes as NULL are not written down.
--
-- Threads. A critical section under a mutex is one step. In Program.System the threads move in any
-- order, one such step or one test of a flag at a time, and a run is a chain of moves; a thread that waits
-- for a condition variable sleeps there until it is woken. The models of the single functions are
-- called with what the others do meanwhile: a call that may block has a schedule, for each time that it gets the mutex the batch of critical sections of other threads before. In the
-- same way, a loop that depends on the outside is given a list: what a `usleep` takes beyond its time,
-- what other threads store between the attempts of a compare-and-exchange, which connections and
-- inserts succeed, the readings of the flag `running`. A result `none` means that such a list ended
-- before the call did. Eleven sleeps of the rate limiter are shown to be enough. The only other fuel is
-- the 20 digits of `print_u64`, shown to be enough for a number below 2 ^ 64, and the rounds of
-- `file_lines`, for which the length of the file is shown to be enough.
--
-- Parameters. cJSON is the record `CJson` of operations, without any law. What libpq and libcurl
-- answer is given as lists, and libwebsockets is the order of the callbacks and the answers to the
-- attempts to connect. The environment is a function, a file its bytes, and the local time and the
-- formatted message of a log line are arguments, and so is what `printf` makes of a double. Of the C
-- library, what the code uses of `strtoul`, `fgets`, `atoi`, `isspace`, `strcasecmp` and `snprintf` is
-- written out by its documentation, `atoi` out of the range of an int as glibc has it. A new
-- connection of libwebsockets has a session of zeros.
--
-- Not modelled: the messages of the log behind the banner, but for the report of the metrics; what the
-- context of libwebsockets and the handle of libcurl are set up with; the sleep of the main loop; the
-- rounding of doubles; and running out of memory outside of the buffers of the queue, the poller and the
-- WebSocket client. The build file, the schema and the scripts hold no logic.
pub mod Prelude
pub mod CString
pub mod Config
pub mod EventQueue
pub mod Parser
pub mod RateLimiter
pub mod Metrics
pub mod DbWriter
pub mod Mentions
pub mod HttpPoller
pub mod WebsocketClient
pub mod Logging
pub mod Program
