-- ===== src/Client.antt =====
-- krabitls/src/client: the engine that drives a connection.
pub mod Errors
pub mod Data
