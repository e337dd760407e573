-- ===== src/Shard.antt =====
-- modules/token_shard.cpp: the binary files of tokens, written once and mapped read-only.
-- A file is the list of its bytes. `std::filesystem`, the streams and `mmap` are taken for the
-- outcomes of their calls.
pub mod Bytes
pub mod Layout
pub mod Open
pub mod Hash
pub mod Cursor
