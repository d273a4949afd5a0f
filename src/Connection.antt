-- ===== src/Connection.antt =====
-- ingest/src/connection.rs: the state of a connection, the stream key, the command handler and the
-- two tasks that serve a connection.
pub mod State
pub mod Keys
pub mod Handler
pub mod Frame
pub mod Tasks
