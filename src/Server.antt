-- ===== src/Server.antt =====
-- crates/server/src: the pure parts of the HTTP server.
pub mod ApiError
