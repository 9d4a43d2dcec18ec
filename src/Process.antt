-- ===== src/Process.antt =====
-- src/main.rs and the start of the server: from the arguments to the exit code.
pub mod Texts
pub mod Main
pub mod Socket
mod Tests
