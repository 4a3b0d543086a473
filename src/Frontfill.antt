-- ===== src/Frontfill.antt =====
-- src/frontfill.rs: the live run, from connecting to the node to writing each event.
pub mod Auth
pub mod Backoff
pub mod Live
pub mod Session
pub mod Start
