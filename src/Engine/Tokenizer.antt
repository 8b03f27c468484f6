-- ===== src/Engine/Tokenizer.antt =====
-- ds4.c: the tokenizer, from text to tokens and back.
pub mod Split
pub mod Bpe
pub mod Chat
mod Tests
