-- ===== src/Config.antt =====
-- src/config.rs: the options of the command line, and the settings of the server that they give.
pub mod Numbers
pub mod Options
pub mod Laws
pub mod Arguments
pub mod RoundTrip
mod Tests
