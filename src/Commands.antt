-- ===== src/Commands.antt =====
-- src/main.rs and src/bin/backfill.rs: from the options, which clap parses, to the two programs.
pub mod Sinks
pub mod Files
pub mod Success
use polymarket_indexer.Prelude.{ℕ, String, Bool, Option, none, some, List}
use polymarket_indexer.Prelude.Outcome.{Result, ok, err}
use polymarket_indexer.Prelude.Exec.{Exec}
use polymarket_indexer.Storage.Arrow.{Disk}
use polymarket_indexer.Contracts.{Address}
use polymarket_indexer.Decode.{Log, Codec}
use polymarket_indexer.Backfill.Run
use polymarket_indexer.Backfill.Run.{BackfillConfig, Event}
use polymarket_indexer.Backfill.Provider.{Http, Provider}
use polymarket_indexer.Frontfill.Session.{Attempt}
use polymarket_indexer.Frontfill.Start
use polymarket_indexer.Frontfill.Start.{
  SinkConfig, parquet, kafka, FrontfillConfig, Host, Worlds, Outcome,
}

pub data SinkType : Type 0 where
  parquet_type kafka_type : SinkType

-- The options of `polymarket-indexer`.
pub record Args : Type 0 where
  pub flush_blocks : ℕ
  pub rpc_url : String
  pub frontfill_start_block : Option ℕ
  pub rpc_auth_key : Option String
  pub rpc_auth_header : String
  pub rpc_auth_scheme : String
  pub output_dir : String
  pub sink : SinkType
  pub kafka_brokers : Option String
  pub kafka_topic_prefix : String
  pub metrics_enabled : Bool
  pub metrics_bind : String
  pub metrics_port : ℕ

-- The options of `polymarket-backfill`.
pub record BackfillArgs : Type 0 where
  pub start_block : ℕ
  pub end_block : ℕ
  pub chunk_size_by_block_number : ℕ
  pub parallelism : ℕ
  pub rate_limit_per_second : ℕ
  pub rpc_http_url : String
  pub rpc_http_key : Option String
  pub rpc_http_auth_header : String
  pub rpc_http_auth_scheme : String
  pub output_dir : String

-- The `match` on the type of the sink.
unfoldable pub choose_sink : Args → Result SinkConfig
choose_sink args = elim args.sink [
  | parquet_type ↦ ok (parquet args.output_dir)
  | kafka_type ↦ elim args.kafka_brokers [
    | none ↦ err "kafka sink requires --kafka-brokers"
    | some brokers ↦ ok (kafka (some brokers) args.kafka_topic_prefix)
  ]
]

unfoldable pub frontfill_config : Args → SinkConfig → FrontfillConfig
frontfill_config args sink = record {
  flush_blocks = args.flush_blocks;
  start_block = args.frontfill_start_block;
  rpc_url = args.rpc_url;
  rpc_auth_key = args.rpc_auth_key;
  rpc_auth_header = args.rpc_auth_header;
  rpc_auth_scheme = args.rpc_auth_scheme;
  metrics_enabled = args.metrics_enabled;
  metrics_bind = args.metrics_bind;
  metrics_port = args.metrics_port;
  sink = sink;
}

-- `main` of src/main.rs, after the options are parsed.
unfoldable pub main :
    (H : Host) → Codec → Result (List Address) → Args → List Attempt → Worlds H → Outcome
unfolding choose_sink
main H C contracts args attempts w = elim (choose_sink args) [
  | err e ↦ (some (err e), none)
  | ok sink ↦ Start.run H C contracts (frontfill_config args sink) attempts w
]

unfoldable pub backfill_config : BackfillArgs → BackfillConfig
backfill_config args = record {
  start_block = args.start_block;
  end_block = args.end_block;
  chunk_size_by_block_number = args.chunk_size_by_block_number;
  parallelism = args.parallelism;
  rate_limit_per_second = args.rate_limit_per_second;
  rpc_http_url = args.rpc_http_url;
  rpc_http_key = args.rpc_http_key;
  rpc_http_auth_header = args.rpc_http_auth_header;
  rpc_http_auth_scheme = args.rpc_http_auth_scheme;
  output_dir = args.output_dir;
}

-- `main` of src/bin/backfill.rs, after the options are parsed.
unfoldable pub backfill_main :
    (H : Http) (D : Disk)
    → Codec
    → (Provider H → List Address → ℕ → ℕ → Exec D.World (List Log))
    → BackfillArgs
    → List Event
    → D.World
    → Option (Result (Unit {0}))
unfolding backfill_config
backfill_main H D c get_logs args events world =
    Run.run H D c get_logs (backfill_config args) events world
