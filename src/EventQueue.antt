-- ===== src/EventQueue.antt =====
-- src/event_queue.c and include/event_queue.h: the bounded ring buffer between the network threads
-- and the database thread, with its blocking push and pop.
pub mod Event
pub mod Ring
pub mod Invariant
pub mod Fifo
pub mod Calls
pub mod Returns
pub mod Log
pub mod Blocked
mod Tests
