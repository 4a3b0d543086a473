-- ===== src/Frontfill/Start.antt =====
-- `run` of src/frontfill.rs as a whole: the check of the configuration, the choice of the sink, the
-- start of the metrics, and the attempts.
pub mod Choice
pub mod Success
pub mod Whole
use polymarket_indexer.Prelude.{ℕ, String, Bool, Option, none, some, List, [], ◌==◌, if◌then◌else◌}
use polymarket_indexer.Prelude.Outcome.{Result, ok, err}
use polymarket_indexer.Prelude.Exec.{Exec, lift, pure, ◌>>=◌, ◌>>◌}
use polymarket_indexer.Storage.Sink.{EventSink}
use polymarket_indexer.Storage.Arrow.{Disk}
use polymarket_indexer.Storage.Avro.{Broker}
use polymarket_indexer.Storage.Parquet
use polymarket_indexer.Storage.Parquet.{Machine, parquet_sink}
use polymarket_indexer.Storage.Kafka
use polymarket_indexer.Storage.Kafka.{KafkaStorage, Client, kafka_sink}
use polymarket_indexer.Contracts.{Address}
use polymarket_indexer.Decode.{Codec}
use polymarket_indexer.Metrics.{FrontfillMetrics}
use polymarket_indexer.Metrics.Registry.{Prometheus}
use polymarket_indexer.Metrics.Server.{Network, start_metrics_runtime}
use polymarket_indexer.Frontfill.Session.{Attempt, Config, Session, Returned, run_attempts}

pub data SinkConfig : Type 0 where
  parquet : (output_dir : String) → SinkConfig
  kafka : (brokers : Option String) (topic_prefix : String) → SinkConfig

pub record FrontfillConfig : Type 0 where
  pub flush_blocks : ℕ
  pub start_block : Option ℕ
  pub rpc_url : String
  pub rpc_auth_key : Option String
  pub rpc_auth_header : String
  pub rpc_auth_scheme : String
  pub metrics_enabled : Bool
  pub metrics_bind : String
  pub metrics_port : ℕ
  pub sink : SinkConfig

-- The part of the configuration that the loops read.
abbrev pub session_config : FrontfillConfig → Config
session_config config = record {
  flush_blocks = config.flush_blocks;
  start_block = config.start_block;
  rpc_url = config.rpc_url;
  rpc_auth_key = config.rpc_auth_key;
  rpc_auth_header = config.rpc_auth_header;
  rpc_auth_scheme = config.rpc_auth_scheme;
}

-- A sink behind a `Box<dyn EventSink>`: its methods, and the object with its world.
pub record SharedSink : Type 1 where
  pub sink : EventSink
  pub state : sink.State

-- The libraries, and whether the program was built with the feature `kafka`.
pub record Host : Type 1 where
  pub disk : Disk
  pub broker : Broker
  pub prometheus : Prometheus
  pub network : Network
  pub kafka_feature : Bool

-- The worlds that the libraries act on, apart from one another.
pub record Worlds (H : Host) : Type 0 where
  pub disk : H.disk.World
  pub broker : H.broker.World
  pub network : H.network.World

-- What `run` returned, if it did, and the sink that it built, if it came that far.
abbrev pub Outcome : Type 1
Outcome = Returned × Option SharedSink

module _ (H : Host) where
  abbrev pub on_parquet : String → Worlds H → SharedSink
  on_parquet output_dir w = record {
    sink = parquet_sink H.disk;
    state = record { storage = Parquet.new H.disk output_dir; world = w.disk };
  }

  abbrev pub on_kafka : KafkaStorage H.broker → H.broker.World → SharedSink
  on_kafka storage world = record {
    sink = kafka_sink H.broker;
    state = record { storage = storage; world = world };
  }

  unfoldable pub connect_kafka : String → String → Exec (Worlds H) SharedSink
  connect_kafka brokers topic_prefix w =
      let (r, world) = Kafka.new H.broker brokers topic_prefix w.broker in
      let w' = record w { broker = world } in
      elim r [ err e ↦ (err e, w') | ok storage ↦ (ok (on_kafka storage world), w') ]

  unfoldable pub build_storage : SinkConfig → Exec (Worlds H) SharedSink
  unfolding connect_kafka
  build_storage (parquet output_dir) w = (ok (on_parquet output_dir w), w)
  build_storage (kafka brokers topic_prefix) w =
      if H.kafka_feature
      then elim brokers [
        | none ↦ (err "kafka sink requires --kafka-brokers", w)
        | some b ↦ connect_kafka b topic_prefix w
      ]
      else (err "kafka sink requires the 'kafka' feature flag", w)

  -- The metrics, where they are enabled, with the gauge of the connection at 0.
  unfoldable pub start_metrics : FrontfillConfig → Exec (Worlds H) (Option FrontfillMetrics)
  start_metrics config w =
      let (r, n) =
        start_metrics_runtime H.prometheus H.network config.metrics_bind config.metrics_port
          w.network in
      let started : Result (Option FrontfillMetrics) = elim r [
        | err e ↦ err e
        | ok runtime ↦ ok (some (record (runtime.metrics) { ws_connected = 0 }))
      ] in
      if config.metrics_enabled then (started, record w { network = n }) else (ok none, w)

  abbrev pub start_session : (S : SharedSink) → Option FrontfillMetrics → Session S.sink.State
  start_session S runtime = record {
    live = record {
      storage = S.state;
      metrics_runtime = runtime;
      stopped = none;
      next_rotation_block = none;
    };
    reconnect_attempt = 0;
    waits = [];
  }

  module _ (C : Codec) (contracts : Result (List Address)) where
    unfoldable pub run_on :
        FrontfillConfig → List Attempt → SharedSink → Option FrontfillMetrics → Outcome
    run_on config attempts S runtime =
        let (r, s) =
          run_attempts S.sink C contracts (session_config config) attempts
            (start_session S runtime) in
        (r, some (record { sink = S.sink; state = s.live.storage }))

    unfoldable pub run : FrontfillConfig → List Attempt → Worlds H → Outcome
    unfolding build_storage start_metrics run_on
    run config attempts w =
        if config.flush_blocks == 0
        then (some (err "flush-blocks must be greater than 0"), none)
        else elim (build_storage config.sink w).0 [
          | err e ↦ (some (err e), none)
          | ok S ↦ elim (start_metrics config (build_storage config.sink w).1).0 [
            | err e ↦ (some (err e), some S)
            | ok runtime ↦ run_on config attempts S runtime
          ]
        ]
