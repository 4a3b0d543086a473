-- ===== src/Commands/Sinks.antt =====
-- The choice of the sink on the command line, against what the live run accepts.
use polymarket_indexer.Prelude.{
  length, ◌*◌, ◌<◌, u64_mod, String, ◌≡◌, ◌⊎◌, inl, inr, refl, ap, sym, ◌∙◌, none, some, List,
  arith, Option-cases,
}
use polymarket_indexer.Prelude.Outcome.{Result, ok, err}
use polymarket_indexer.Contracts.{Address}
use polymarket_indexer.Decode.{Codec}
use polymarket_indexer.Frontfill.Session.{Attempt}
use polymarket_indexer.Frontfill.Session.Events.{logs_of, all_events}
use polymarket_indexer.Storage.Parquet.Paths.{DiskLaws}
use polymarket_indexer.Storage.Kafka.Sending.{BrokerLaws}
use polymarket_indexer.Frontfill.Start
use polymarket_indexer.Frontfill.Start.{SinkConfig, parquet, kafka, Host, Worlds}
use polymarket_indexer.Frontfill.Start.Whole.{Records, HasFreeNames, run-Records}
use polymarket_indexer.Commands.{
  Args, SinkType, parquet_type, kafka_type, choose_sink, frontfill_config, main,
}

-- The sink that the options ask for.
pub data Asks (args : Args) : SinkConfig → Type 0 where
  for_parquet : args.sink ≡ parquet_type → Asks args (parquet args.output_dir)
  for_kafka :
      (brokers : String)
      → args.sink ≡ kafka_type
      → args.kafka_brokers ≡ some brokers
      → Asks args (kafka (some brokers) args.kafka_topic_prefix)

SinkType-cases : (t : SinkType) → (t ≡ parquet_type) ⊎ (t ≡ kafka_type)
SinkType-cases parquet_type = inl refl
SinkType-cases kafka_type = inr refl

-- The options are refused exactly where they ask for Kafka without brokers.
pub choose_sink-cases :
    (args : Args)
    → ((args.sink ≡ kafka_type)
        × (args.kafka_brokers ≡ none)
        × (choose_sink args ≡ err "kafka sink requires --kafka-brokers"))
      ⊎ ((sink : SinkConfig) × Asks args sink × (choose_sink args ≡ ok sink))
unfolding choose_sink
choose_sink-cases args = elim (SinkType-cases args.sink) [
  | inl e ↦ inr (parquet args.output_dir, for_parquet e, ground arith)
  | inr e ↦ elim (Option-cases args.kafka_brokers) [
    | inl missing ↦ inl (e, missing, ground arith)
    | inr (b, given) ↦
        inr (kafka (some b) args.kafka_topic_prefix, for_kafka b e given, ground arith)
  ]
]

module _ (H : Host) (C : Codec) (contracts : Result (List Address)) (args : Args)
    (attempts : List Attempt) (w : Worlds H) where
  -- `main` either refuses Kafka without brokers, before a sink is built, or runs with the sink that
  -- the options ask for.
  pub main-cases :
      ((args.sink ≡ kafka_type)
        × (args.kafka_brokers ≡ none)
        × (main H C contracts args attempts w
            ≡ (some (err "kafka sink requires --kafka-brokers"), none)))
      ⊎ ((sink : SinkConfig) × Asks args sink
          × (main H C contracts args attempts w
              ≡ Start.run H C contracts (frontfill_config args sink) attempts w))
  unfolding main
  main-cases = elim (choose_sink-cases args) [
    | inl (e, missing, refused) ↦ inl (e, missing, rw (refused, main) refl)
    | inr (sink, asks, chosen) ↦ inr (sink, asks, rw (chosen, main) refl)
  ]

  Asks-HasFreeNames :
      (L : DiskLaws H.disk) (K : BrokerLaws H.broker)
      → HasFreeNames H L K (parquet args.output_dir) w
      → (sink : SinkConfig) → Asks args sink
      → HasFreeNames H L K sink w
  Asks-HasFreeNames L K free _ (for_parquet _) = free
  Asks-HasFreeNames L K free _ (for_kafka _ _ _) = tt

  -- When `main` returns `Ok`, the sink that the options ask for has one record for each event of the
  -- logs before the signal, and all that it had at the start; provided that no file of the output
  -- directory has a name with the time of the start or a later one, and there are fewer than 2^63 logs.
  pub main-Records :
      (L : DiskLaws H.disk) (K : BrokerLaws H.broker)
      → HasFreeNames H L K (parquet args.output_dir) w
      → 2 * length (logs_of attempts) < u64_mod
      → (main H C contracts args attempts w).0 ≡ some (ok tt)
      → (sink : SinkConfig) × Asks args sink
        × Records H L K sink w
            (all_events C (logs_of attempts))
            (main H C contracts args attempts w).1
  unfolding frontfill_config
  main-Records L K free bound h = elim main-cases [
    | inl (_, _, refused) ↦ let absurd : ⊥ = cc in elim absurd [ ]
    | inr (sink, asks, same) ↦ (
      sink,
      asks,
      rw same (
          run-Records H L K C contracts (frontfill_config args sink) attempts w
            (Asks-HasFreeNames L K free sink asks) bound (ap (λ x. x.0) (sym same) ∙ h)),
    )
  ]
