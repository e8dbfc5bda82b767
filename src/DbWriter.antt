-- ===== src/DbWriter.antt =====
-- src/db_writer.c and include/db_writer.h: the thread that takes events from the queue and inserts
-- them into PostgreSQL. libpq is a parameter: the answers of its calls come from a script.
pub mod Backoff
pub mod Insert
pub mod Thread
pub mod Drains
pub mod Sent
mod Tests
