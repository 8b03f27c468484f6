-- ===== src/Engine.antt =====
-- ds4.c, the engine, part by part.
pub mod Utf8
pub mod Tokenizer
pub mod Session
pub mod Payload
pub mod Table
pub mod Gguf
