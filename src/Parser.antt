-- ===== src/Parser.antt =====
-- src/parser.c: from the JSON text of a notification or a response to events on the queue.
pub mod Base64
pub mod Json
pub mod Message
pub mod Extract
pub mod Pushing
pub mod Handling
pub mod Bounds
pub mod Kinds
pub mod Sample
mod Tests
