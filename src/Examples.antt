-- ===== src/Examples.antt =====
-- Concrete data, and each property at it.
mod Fixtures
mod Services
mod Whole
mod Chunks
mod Decoding
mod Store
mod Pool
mod Live
mod Rates
mod Files
mod Success
mod Records
