-- ===== src/Lib.antt =====
-- A model of the Polymarket indexer, and what holds of it.
--
-- The program reads the logs of a few contracts from a Polygon node, decodes them, and writes them
-- to Parquet files: `backfill` for a range of past blocks, in concurrent chunks, and `frontfill`
-- for the logs that arrive over a WebSocket. Both use one decoder; the live run writes through the
-- trait `EventSink`, to Parquet files or to Kafka, and keeps metrics.
--
-- - Prelude: the native numbers with the tests and sums of machine integers, lists, association
--   lists for maps, `Result` with `?`, and `Exec` for methods that change a state and may return
--   early. An error is its message.
-- - Contracts (src/contracts.rs): the events and the watched addresses.
-- - Decode (src/decode.rs): `topic0`, `value_to_string`, `decode_log`. The branches of `decode_log`
--   are `route`, and the body they share is `decode_as`, with the columns in `fields`. Decoders,
--   signature hashes and serialisation are a parameter, `Codec`. Decode/Columns has the columns of
--   each type, Decode/Dispatch the branches.
-- - Storage (src/storage.rs): `EventSink` in Storage/Sink, and runs of its calls in Storage/Calls.
--   `ParquetStorage` is in Storage/Parquet, over the interface `Disk` of Storage/Arrow, which stands
--   for arrow, parquet, the file system and the clock; what is relied on of them is named in
--   `WriterLaws`, `CloseLaws` and, in Storage/Parquet/Paths, `DiskLaws`. The last asks that
--   a file is created under a path that is free, and that the clock is not set back. The abstract
--   view is a bag of batches, in Storage/Parquet/Ledger. `KafkaStorage` is in Storage/Kafka, over the
--   interface `Broker` of Storage/Avro, which stands for the Avro and Kafka clients, with `SchemaLaws`,
--   `BrokerLaws` and `RecordLaws`; its abstract view is the list of messages. `IsReliable` of
--   Storage/Reliable and `IsResponsive` of Storage/Responsive say of a disk and of the clients that
--   their calls return.
-- - Backfill (src/backfill.rs): `RateLimiter`, `chunk_ranges` in Chunks, the rows and their sort in
--   Rows, the grouping loop in Group, `write_parquet_file` in File, the work on one chunk in Chunk,
--   `run` with its checks, the concurrent chunks and the verdict in Run, the headers in Auth, and the
--   URL and the client in Provider, over the interface `Http`. Chunk/Described and Run/Files say which
--   files a chunk and a run amount to, by the logs alone; `ProviderLaws` asks that a request changes
--   no file. Run/Requests counts the requests. Run/Success is about a disk whose calls return and a
--   provider that answers, `IsAnswering`.
-- - Metrics (src/metrics.rs): the gauges and counters, the queues of the last minute, the health
--   checks; the task that updates the rates in Updater, the registration and `/metrics` in Registry,
--   over the interface `Prometheus`, the start of the server in Server, over `Network`, and the
--   channels and joins of the two tasks in Tasks.
-- - Frontfill (src/frontfill.rs): the credentials and the filter in Auth, the waits in Backoff, one
--   log and the shutdown in Live, the inner and the outer loop in Session, and in Start what `run`
--   does before them: the check, `build_storage` and the metrics. `Session.run` is `run` on a sink
--   that is there already. Session/Events has the events that the streams bring; Live/Delivery and
--   Session/Delivery say which calls on the sink a log, a stream and a run amount to, and
--   Live/Success, Session/Success and Start/Success what
--   follows where the logs are in order and the sink works.
-- - Commands (src/main.rs, src/bin/backfill.rs): the options, and the two programs from there on.
--   Commands/Success is about sinks whose calls return.
-- - Examples: concrete data, and each property at it.
--
-- Concurrency is an explicit order of events: a task of the backfill stops at its `.await`s, which
-- are the stages of a task in Backfill/Run, and the semaphore and its refill task take turns in
-- Backfill/RateLimiter. What the node sends is a list, of attempts to connect and of the items of a
-- stream.
--
-- `chunk_ranges` runs on fuel: a round for each block of the range, and two more. Each round moves
-- on by at least one block where no sum wraps around, so the fuel is enough there. Sums on `u64`
-- wrap around, as in a release build, or saturate, as the source says. Hash maps are association
-- lists, in the order of insertion; gauges hold whole numbers.
--
-- Not modelled: the parsing of options, the axum router, the HTTP and WebSocket clients, log
-- messages, the panic of `Semaphore::new` above its greatest number of permits, 2^61 - 1, and the wait
-- for the two tasks of the metrics where the live run takes them down, which ends, by Metrics/Server.

pub mod Prelude
pub mod Contracts
pub mod Decode
pub mod Storage
pub mod Backfill
pub mod Metrics
pub mod Frontfill
pub mod Commands
pub mod Examples
