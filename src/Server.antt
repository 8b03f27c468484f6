-- ===== src/Server.antt =====
-- ds4_server.c, the HTTP server, part by part.
pub mod Json
pub mod Kv
pub mod Stream
pub mod Dsml
pub mod ToolMemory
pub mod Queue
pub mod Http
