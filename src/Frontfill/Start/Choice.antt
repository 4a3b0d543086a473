-- ===== src/Frontfill/Start/Choice.antt =====
-- What stands between the configuration and the loops.
use polymarket_indexer.Prelude.{
  String, ◌≡◌, ◌⊎◌, inl, inr, refl, true, false, Option, none, some, List, ◌==◌, arith, Bool-cases,
}
use polymarket_indexer.Prelude.Outcome.{Result, ok, Result-cases}
use polymarket_indexer.Contracts.{Address}
use polymarket_indexer.Decode.{Codec}
use polymarket_indexer.Metrics.{FrontfillMetrics}
use polymarket_indexer.Storage.Kafka
use polymarket_indexer.Storage.Kafka.{KafkaStorage}
use polymarket_indexer.Frontfill.Session.{Attempt}
use polymarket_indexer.Frontfill.Start.{
  SinkConfig, parquet, kafka, FrontfillConfig, SharedSink, Host, Worlds, connect_kafka, on_parquet,
  on_kafka, build_storage, start_metrics, run_on, run,
}

module _ (H : Host) where
  -- A sink that is built comes from a directory, or, with the feature, from the brokers that a client
  -- was made for; the client starts with no schemas.
  pub build_storage-eq-ok :
      (sink : SinkConfig) (w : Worlds H) (S : SharedSink)
      → (build_storage H sink w).0 ≡ ok S
      → ((dir : String) × (sink ≡ parquet dir) × (S ≡ on_parquet H dir w))
        ⊎ ((brokers : String) × (prefix : String) × (storage : KafkaStorage H.broker) × (sink
              ≡ kafka (some brokers) prefix)
            × (H.kafka_feature ≡ true)
            × ((Kafka.new H.broker brokers prefix w.broker).0 ≡ ok storage)
            × (S ≡ on_kafka H storage (Kafka.new H.broker brokers prefix w.broker).1))
  unfolding build_storage connect_kafka
  build_storage-eq-ok (parquet dir) w S h = inl (dir, refl, cc)
  build_storage-eq-ok (kafka none prefix) w S h = elim (Bool-cases H.kafka_feature) [
    | inl e ↦ ground arith
    | inr e ↦ ground arith
  ]
  build_storage-eq-ok (kafka (some b) prefix) w S h = elim (Bool-cases H.kafka_feature) [
    | inr e ↦ ground arith
    | inl e ↦ elim (Result-cases (Kafka.new H.broker b prefix w.broker).0) [
      | inl (storage, made) ↦ inr (b, prefix, storage, refl, e, made, ground arith)
      | inr (_, failed) ↦ ground arith
    ]
  ]

  module _ (C : Codec) (contracts : Result (List Address)) where
    -- `run` returns `Ok` only where the loops did, on the sink that was built for the configuration, and
    -- with positive flush blocks.
    pub run-started :
        (config : FrontfillConfig) (attempts : List Attempt) (w : Worlds H)
        → (run H C contracts config attempts w).0 ≡ some (ok tt)
        → (S : SharedSink) × (runtime : Option FrontfillMetrics) × ((config.flush_blocks == 0)
            ≡ false)
          × ((build_storage H config.sink w).0 ≡ ok S)
          × (run H C contracts config attempts w ≡ run_on H C contracts config attempts S runtime)
    unfolding run
    run-started config attempts w = elim (Bool-cases (config.flush_blocks == 0)) [
      | inl e ↦ rw (e, run) (λ h. cc)
      | inr e ↦ elim (Result-cases (build_storage H config.sink w).0) [
        | inr (_, failed) ↦ rw (e, run, failed) (λ h. cc)
        | inl (S, built) ↦
            elim (Result-cases (start_metrics H config (build_storage H config.sink w).1).0) [
              | inr (_, failed) ↦ rw (e, run, built, failed) (λ h. cc)
              | inl (runtime, started) ↦
                  rw (e, run, built, started) (λ h. (S, runtime, refl, refl, refl))
            ]
      ]
    ]
