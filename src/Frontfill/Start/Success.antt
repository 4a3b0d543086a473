-- ===== src/Frontfill/Start/Success.antt =====
-- The live run on a sink that works, from its configuration on.
use polymarket_indexer.Prelude.{
  String, ◌<◌, ◌==◌, ◌≡◌, refl, ap, sym, ◌∙◌, Option, none, some, true, false, List, [], ◌∷◌, All,
  arith, Bool-cases, inl, inr,
}
use polymarket_indexer.Prelude.Dict.{lookup}
use polymarket_indexer.Prelude.Outcome.{Result, ok}
use polymarket_indexer.Prelude.Exec.{bind-of-ok}
use polymarket_indexer.Contracts.{Address}
use polymarket_indexer.Decode.{Codec}
use polymarket_indexer.Storage.Arrow.{Disk}
use polymarket_indexer.Storage.Avro.{Broker}
use polymarket_indexer.Storage.Reliable.{IsReliable}
use polymarket_indexer.Storage.Responsive.{IsResponsive}
use polymarket_indexer.Storage.Parquet
use polymarket_indexer.Storage.Parquet.{parquet_sink}
use polymarket_indexer.Storage.Parquet.Success.{
  Agrees, write_event-Agrees, rotate_writers-Agrees, close_writers-ok,
}
use polymarket_indexer.Storage.Kafka
use polymarket_indexer.Storage.Kafka.{KafkaStorage, kafka_sink}
use polymarket_indexer.Storage.Kafka.Schemas.{SchemaLaws}
use polymarket_indexer.Storage.Kafka.Success.{Matches, write_event-Matches}
use polymarket_indexer.Metrics.{FrontfillMetrics}
use polymarket_indexer.Frontfill.Auth.{WsConnect, Filter, build_ws_connect, build_filter}
use polymarket_indexer.Frontfill.Live.Success.{Works}
use polymarket_indexer.Frontfill.Session.{Attempt, connect}
use polymarket_indexer.Frontfill.Session.Delivery.Signals.{any_signals}
use polymarket_indexer.Frontfill.Session.Success.{IsAttemptInOrder, run_ok}
use polymarket_indexer.Frontfill.Start.{
  SinkConfig, parquet, kafka, FrontfillConfig, Host, Worlds, SharedSink, session_config, on_parquet,
  on_kafka, connect_kafka, start_session, build_storage, start_metrics, run_on, run,
}
use polymarket_indexer.Frontfill.Start.Whole.{run-eq-run_attempts}

abbrev parquet_sink-Works : (D : Disk) → IsReliable D → Works (parquet_sink D)
parquet_sink-Works D reliable = record {
  IsGood = λ m. Agrees m.storage.schemas;
  write_event-IsGood = λ e m proper good. write_event-Agrees D reliable e m proper good;
  rotate-IsGood = λ m good. rotate_writers-Agrees D reliable m good;
  close-ok = λ m good. close_writers-ok D reliable m;
}

abbrev kafka_sink-Works : (B : Broker) → SchemaLaws B → IsResponsive B → Works (kafka_sink B)
kafka_sink-Works B laws responsive = record {
  IsGood = λ m. Matches B m.storage.schemas;
  write_event-IsGood = λ e m proper good. write_event-Matches B laws responsive e m proper good;
  rotate-IsGood = λ m good. (refl, good);
  close-ok = λ m good. refl;
}

new-Agrees : (D : Disk) (base_path : String) → Agrees (Parquet.new D base_path).schemas
unfolding Parquet.new lookup
new-Agrees D base_path k schema found = cc

module _ (B : Broker) (responsive : IsResponsive B) where
  -- A client can be made, and has no schemas yet.
  new-Matches :
      (brokers prefix : String) (w : B.World)
      → (storage : KafkaStorage B) × ((Kafka.new B brokers prefix w).0 ≡ ok storage)
        × Matches B storage.schemas
  unfolding Kafka.new lookup
  new-Matches brokers prefix w =
      let settings = ("bootstrap.servers", brokers) ∷ ("message.timeout.ms", "5000") ∷ [] in
      let (producer, made) = responsive.create_producer-ok settings w in
      (
        record { producer = producer; topic_prefix = prefix; schemas = [] },
        ap (λ x. x.0) (bind-of-ok (B.create_producer settings) _ w made),
        λ k schema found. cc,
      )

module _ (H : Host) where
  -- The calls that the sink makes return: those on the disk, or those on the brokers, which are given,
  -- in a program with the feature `kafka`.
  abbrev pub IsReady : SinkConfig → Type 0
  IsReady (parquet output_dir) = IsReliable H.disk
  IsReady (kafka none topic_prefix) = ⊥
  IsReady (kafka (some brokers) topic_prefix) =
      (H.kafka_feature ≡ true) × SchemaLaws H.broker × IsResponsive H.broker

  start_metrics-eq :
      (config : FrontfillConfig) (v w : Worlds H)
      → v.network ≡ w.network
      → (start_metrics H config v).0 ≡ (start_metrics H config w).0
  unfolding start_metrics
  start_metrics-eq config v w same = elim (Bool-cases config.metrics_enabled) [
    | inl e ↦ rw (e, same, start_metrics) refl
    | inr e ↦ rw (e, start_metrics) refl
  ]

  -- The sink that is built works; the metrics start as they would before it.
  build_storage-Works :
      (config : FrontfillConfig) (sink : SinkConfig) (w : Worlds H)
      → IsReady sink
      → (S : SharedSink) × (works : Works S.sink) × works.IsGood S.state
        × ((build_storage H sink w).0 ≡ ok S)
        × ((start_metrics H config (build_storage H sink w).1).0 ≡ (start_metrics H config w).0)
  unfolding build_storage connect_kafka
  build_storage-Works config (parquet output_dir) w reliable = (
    on_parquet H output_dir w,
    parquet_sink-Works H.disk reliable,
    new-Agrees H.disk output_dir,
    refl,
    refl,
  )
  build_storage-Works config (kafka none topic_prefix) w ready = elim ready [ ]
  build_storage-Works config (kafka (some brokers) topic_prefix) w (feature, laws, responsive) =
      let (storage, made, matches) =
        new-Matches H.broker responsive brokers topic_prefix w.broker in
      (
        on_kafka H storage (Kafka.new H.broker brokers topic_prefix w.broker).1,
        kafka_sink-Works H.broker laws responsive,
        matches,
        rw (feature, made, build_storage, connect_kafka) refl,
        start_metrics-eq config (build_storage H (kafka (some brokers) topic_prefix) w).1 w
            (rw (feature, made, build_storage, connect_kafka) refl),
      )

  -- The live run returns `Ok` once a signal has come on some stream, where the sink works and each
  -- log is in order.
  pub run_finishes :
      (C : Codec) (contracts : Result (List Address)) (config : FrontfillConfig)
      → (attempts : List Attempt) (w : Worlds H) (runtime : Option FrontfillMetrics)
      → (target : WsConnect) (filter : Filter) → IsReady config.sink
      → 0 < config.flush_blocks
      → build_ws_connect config.rpc_url config.rpc_auth_key config.rpc_auth_header
          config.rpc_auth_scheme
        ≡ ok target
      → build_filter contracts config.start_block ≡ ok filter
      → (start_metrics H config w).0 ≡ ok runtime
      → All (IsAttemptInOrder C) attempts
      → any_signals attempts ≡ true
      → (run H C contracts config attempts w).0 ≡ some (ok tt)
  unfolding run run_on connect
  run_finishes C contracts config attempts w runtime target filter ready positive connects filters
        started in_order signalled =
      let flush : (config.flush_blocks == 0) ≡ false = ground arith in
      let (S, works, good, built, same) = build_storage-Works config config.sink w ready in
      let s = start_session H S runtime in
      rw (flush, built, same ∙ started, run)
        (ap (λ x. x.0)
            (sym (run-eq-run_attempts S.sink C contracts (session_config config) attempts s flush))
          ∙ run_ok S.sink works C contracts (session_config config) target connects filter filters
              attempts s positive in_order good signalled)
