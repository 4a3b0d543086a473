-- ===== src/Storage.antt =====
-- src/storage.rs: the sink interface, and its two implementations.
pub mod Sink
pub mod Calls
pub mod Arrow
pub mod Parquet
pub mod Reliable
pub mod Responsive
pub mod Avro
pub mod Kafka
