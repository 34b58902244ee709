-- ===== src/Wal.antt =====
-- The write-ahead log of tsdb/file_wal.go.
pub mod Frames
pub mod Buffer
pub mod Layout
pub mod Recovery
pub mod States
pub mod Policy
pub mod Files
pub mod Reads
pub mod Upkeep
