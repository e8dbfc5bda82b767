-- ===== src/Config.antt =====
-- include/config.h and src/config.c: the configuration, from defaults, an `.env` file and the
-- environment.
pub mod Fields
pub mod Settings
pub mod Files
pub mod Lines
pub mod Ignored
pub mod Load
pub mod Fits
pub mod Numbers
pub mod Texts
pub mod Entries
pub mod Values
pub mod Printed
pub mod Print
pub mod Secrets
mod Tests
