-- ===== src/Server/Json.antt =====
-- The JSON reader of ds4_server.c: a reader takes the rest of a C string and moves past a value.
-- What is kept from a reader that fails is nothing: its callers discard the pointer and the buffer.
mod Bounds
mod Number
mod RoundTrip
mod Surrogates
mod Tests
mod Minify
mod Total
pub mod Skip
pub mod Text
