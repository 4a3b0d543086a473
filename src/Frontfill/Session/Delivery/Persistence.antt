-- ===== src/Frontfill/Session/Delivery/Persistence.antt =====
-- A live run with either sink: `run` of src/frontfill.rs on `ParquetStorage` and on `KafkaStorage`.
use polymarket_indexer.Prelude.{
  length, ◌+◌, ◌*◌, ◌<◌, u64_mod, arith, ◌≡◌, ◌∙◌, some, List, [], ◌∷◌, ◌++◌,
}
use polymarket_indexer.Storage.Parquet.Paths.{DiskLaws, IsClear}
use mathlib.Core.List.{Perm, append-nil}
use polymarket_indexer.Prelude.Outcome.{Result, ok}
use polymarket_indexer.Storage.Arrow.{Disk}
use polymarket_indexer.Storage.Calls.{close, events_of, events_of-append}
use polymarket_indexer.Storage.Parquet.{Machine, parquet_sink}
use polymarket_indexer.Storage.Parquet.Ledger.{stored, contents}
use polymarket_indexer.Storage.Parquet.Refinement.{HoldsAll, stored-run_calls}
use polymarket_indexer.Storage.Avro.{Broker}
use polymarket_indexer.Storage.Kafka.{Client, kafka_sink}
use polymarket_indexer.Storage.Kafka.Sending.{Message, BrokerLaws}
use polymarket_indexer.Storage.Kafka.Refinement.{CarriesAll, sent-run_calls}
use polymarket_indexer.Contracts.{Address}
use polymarket_indexer.Decode.{Codec}
use polymarket_indexer.Frontfill.Session.{Attempt, Config, Session, run}
use polymarket_indexer.Frontfill.Session.Events.{logs_of, all_events}
use polymarket_indexer.Frontfill.Session.Delivery.Runs.{run-Reaches}

module _ (D : Disk) (L : DiskLaws D) (C : Codec) (contracts : Result (List Address)) where
  -- When a live run on the Parquet sink returns `Ok`, the batches of the complete files are those that
  -- its files held at the start and one for each event of the logs before the signal, up to their order:
  -- no event is lost, and none is stored twice, whatever rotations and reconnections lay between. At the
  -- start no file may have a name that is yet to be given, and the file set must not come to 2^64.
  pub run-stored :
      (config : Config) (attempts : List Attempt) (s : Session (Machine D))
      → IsClear D s.live.storage
      → s.live.storage.storage.file_set_id + 2 * length (logs_of attempts) < u64_mod
      → (run (parquet_sink D) C contracts config attempts s).0 ≡ some (ok tt)
      → (bs : List D.Batch) × HoldsAll D L (all_events C (logs_of attempts)) bs
        × Perm
            (stored D L (run (parquet_sink D) C contracts config attempts s).1.live.storage.world)
            (bs ++ contents D L s.live.storage)
  run-stored config attempts s clear bound h =
      let after = (run (parquet_sink D) C contracts config attempts s).1.live.storage in
      let (calls, reached, written, stays_open, few) =
        run-Reaches (parquet_sink D) C contracts config attempts s h in
      let (bs, hold, perm) =
        stored-run_calls D L calls s.live.storage after stays_open (omega arith) clear reached in
      (bs, rw (← written) hold, perm)

-- The same with the Kafka sink.
module _ (B : Broker) (L : BrokerLaws B) (C : Codec) (contracts : Result (List Address)) where
  -- When a live run on the Kafka sink returns `Ok`, the brokers have, after the messages that they had
  -- at its start, one message for each event of the logs before the signal, in the order of the logs.
  pub run-sent :
      (config : Config) (attempts : List Attempt) (s : Session (Client B))
      → (run (kafka_sink B) C contracts config attempts s).0 ≡ some (ok tt)
      → (msgs : List (Message B.Payload)) × CarriesAll B L s.live.storage.storage.topic_prefix
          (all_events C (logs_of attempts))
          msgs
        × (L.sent (run (kafka_sink B) C contracts config attempts s).1.live.storage.world
            ≡ L.sent s.live.storage.world ++ msgs)
  unfolding events_of
  run-sent config attempts s h =
      let after = (run (kafka_sink B) C contracts config attempts s).1.live.storage in
      let (calls, reached, written, _, _) =
        run-Reaches (kafka_sink B) C contracts config attempts s h in
      let (msgs, carried, sent) =
        sent-run_calls B L (calls ++ close ∷ []) s.live.storage after reached in
      let all : events_of (calls ++ close ∷ []) ≡ all_events C (logs_of attempts) =
        events_of-append calls (close ∷ []) ∙ append-nil (events_of calls) ∙ written in
      (msgs, rw (← all) carried, sent)
