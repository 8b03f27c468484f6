-- ===== src/Server/Kv.antt =====
-- ds4_server.c, the disk cache: file headers, the tool map behind a checkpoint, and the policies.
pub mod Header
pub mod ToolMap
pub mod Sha1
pub mod Prefix
pub mod Evict
pub mod EntryFile
mod Tests
