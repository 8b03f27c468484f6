-- ===== src/Server/Stream.antt =====
-- ds4_server.c, the parts that decide which bytes of a generated text may be sent already.
pub mod Stops
pub mod Utf8Hold
pub mod Plain
pub mod Thinking
mod Tests
