-- ===== src/Backfill.antt =====
-- src/backfill.rs: historical ingestion of a range of blocks, in chunks.
pub mod RateLimiter
pub mod Chunks
pub mod Rows
pub mod Group
pub mod File
pub mod Chunk
pub mod Provider
pub mod Run
pub mod Auth
