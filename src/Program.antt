-- ===== src/Program.antt =====
-- src/main.c: the arguments, the choice of the mode, the startup, the main loop and the shutdown, and
-- the functions that start the threads.
pub mod Start
pub mod Main
pub mod Print
pub mod Secrets
pub mod Order
pub mod Pipeline
pub mod System
pub mod Loaded
mod Tests
