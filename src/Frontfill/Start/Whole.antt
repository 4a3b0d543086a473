-- ===== src/Frontfill/Start/Whole.antt =====
-- The whole live run with either sink, from its configuration to what the sink holds at the end.
use mathlib.Core.Path.{subst}
use mathlib.Core.List.{Perm, append-nil}
use polymarket_indexer.Prelude.{
  length, ◌*◌, ◌<◌, ◌≤◌, ℕ, u64_mod, arith, String, ◌≡◌, refl, ap, sym, ◌∙◌, false, Option, some,
  List, ◌++◌, ◌==◌, inl, inr,
}
use polymarket_indexer.Storage.Parquet.Paths.{DiskLaws, path_of}
use polymarket_indexer.Prelude.Outcome.{Result, ok}
use polymarket_indexer.Contracts.{Address}
use polymarket_indexer.Decode.{Codec}
use polymarket_indexer.Storage.Sink.{EventSink}
use polymarket_indexer.Storage.Parquet
use polymarket_indexer.Storage.Parquet.{Machine, parquet_sink}
use polymarket_indexer.Storage.Parquet.Ledger.{stored}
use polymarket_indexer.Storage.Parquet.Refinement.{HoldsAll}
use polymarket_indexer.Storage.Calls.{SinkEvent}
use polymarket_indexer.Storage.Kafka
use polymarket_indexer.Storage.Kafka.{KafkaStorage, Client, kafka_sink}
use polymarket_indexer.Storage.Kafka.Sending.{Message, BrokerLaws, new-eq-ok}
use polymarket_indexer.Storage.Kafka.Refinement.{CarriesAll}
use polymarket_indexer.Metrics.{FrontfillMetrics}
use polymarket_indexer.Frontfill.Session
use polymarket_indexer.Frontfill.Session.{Attempt, Config, Session, run_attempts}
use polymarket_indexer.Frontfill.Session.Events.{logs_of, all_events}
use polymarket_indexer.Frontfill.Session.Delivery.Persistence.{run-stored, run-sent}
use polymarket_indexer.Frontfill.Start.{
  SinkConfig, parquet, kafka, FrontfillConfig, session_config, SharedSink, Host, Worlds,
  start_session, on_parquet, on_kafka, run_on, Outcome, run,
}
use polymarket_indexer.Frontfill.Start.Choice.{run-started, build_storage-eq-ok}

module _ (S : EventSink) (C : Codec) (contracts : Result (List Address)) where
  -- With positive flush blocks, the loops of `Session.run` are all of it.
  pub run-eq-run_attempts :
      (config : Config) (attempts : List Attempt) (s : Session S.State)
      → (config.flush_blocks == 0) ≡ false
      → Session.run S C contracts config attempts s ≡ run_attempts S C contracts config attempts s
  unfolding Session.run
  run-eq-run_attempts config attempts s e = rw e refl

module _ (H : Host) (L : DiskLaws H.disk) (K : BrokerLaws H.broker) where
  -- What a sink that was built in the worlds `w` has of the events. The complete files hold a batch for
  -- each, beside what they held before, in some order; or the brokers have a message for each, in order,
  -- after those that they had.
  abbrev pub Records : SinkConfig → Worlds H → List SinkEvent → Option SharedSink → Type 1
  Records (parquet dir) w es result =
      (final : Machine H.disk) × (bs : List H.disk.Batch) × (result
        ≡ some (record { sink = parquet_sink H.disk; state = final }))
      × HoldsAll H.disk L es bs
      × Perm (stored H.disk L final.world) (bs ++ stored H.disk L w.disk)
  Records (kafka brokers prefix) w es result =
      (final : Client H.broker) × (msgs : List (Message H.broker.Payload)) × (result
        ≡ some (record { sink = kafka_sink H.broker; state = final }))
      × CarriesAll H.broker K prefix es msgs
      × (K.sent final.world ≡ K.sent w.broker ++ msgs)

  -- The directory has no file whose name has the time of the start, or a later one.
  abbrev pub HasFreeNames : SinkConfig → Worlds H → Type 0
  HasFreeNames (parquet dir) w =
      (et : String) (millis id : ℕ)
      → H.disk.timestamp_millis w.disk ≤ millis
      → H.disk.exists (path_of dir et millis id) w.disk ≡ false
  HasFreeNames (kafka brokers prefix) w = Unit

  module _ (C : Codec) (contracts : Result (List Address)) (config : FrontfillConfig)
      (attempts : List Attempt) (w : Worlds H) (runtime : Option FrontfillMetrics)
      (positive : (config.flush_blocks == 0) ≡ false) where
    -- The loops on a fresh Parquet sink.
    run_on-parquet :
        (dir : String)
        → HasFreeNames (parquet dir) w
        → 2 * length (logs_of attempts) < u64_mod
        → (run_on H C contracts config attempts (on_parquet H dir w) runtime).0 ≡ some (ok tt)
        → Records
            (parquet dir)
            w
            (all_events C (logs_of attempts))
            (run_on H C contracts config attempts (on_parquet H dir w) runtime).1
    unfolding run_on Parquet.new
    run_on-parquet dir free bound h =
        let c = session_config config in
        let s = start_session H (on_parquet H dir w) runtime in
        let same = run-eq-run_attempts (parquet_sink H.disk) C contracts c attempts s positive in
        let (bs, hold, perm) =
          run-stored H.disk L C contracts c attempts s
            (λ et millis id time _ _. free et millis id time) (omega arith)
            (ap (λ x. x.0) same ∙ h) in
        let final = (run_attempts (parquet_sink H.disk) C contracts c attempts s).1.live.storage in
        (
          final,
          bs,
          refl,
          hold,
          rw (← ap (λ x. x.1.live.storage) same, ← append-nil (stored H.disk L w.disk)) perm,
        )

    -- The loops on a client that was just made.
    run_on-kafka :
        (brokers prefix : String) (storage : KafkaStorage H.broker)
        → (Kafka.new H.broker brokers prefix w.broker).0 ≡ ok storage
        → let S = on_kafka H storage (Kafka.new H.broker brokers prefix w.broker).1 in
          (run_on H C contracts config attempts S runtime).0 ≡ some (ok tt)
          → Records
              (kafka (some brokers) prefix)
              w
              (all_events C (logs_of attempts))
              (run_on H C contracts config attempts S runtime).1
    unfolding run_on
    run_on-kafka brokers prefix storage made h =
        let c = session_config config in
        let world = (Kafka.new H.broker brokers prefix w.broker).1 in
        let s = start_session H (on_kafka H storage world) runtime in
        let same = run-eq-run_attempts (kafka_sink H.broker) C contracts c attempts s positive in
        let (msgs, carried, sent) =
          run-sent H.broker K C contracts c attempts s (ap (λ x. x.0) same ∙ h) in
        let (named, silent) = new-eq-ok H.broker K brokers prefix w.broker storage made in
        let final = (run_attempts (kafka_sink H.broker) C contracts c attempts s).1.live.storage in
        (
          final,
          msgs,
          refl,
          rw (← named) carried,
          ap (λ x. K.sent x.1.live.storage.world) (sym same) ∙ sent ∙ ap (λ l. l ++ msgs) silent,
        )

  -- When `run` returns `Ok`, the sink that was configured has one record for each event of the logs
  -- before the signal, and all that it had at the start: no event is lost, and none is there twice,
  -- whatever rotations and reconnections lay between. For the Parquet sink, no file of the directory may
  -- have a name with the time of the start or a later one; there must be fewer than 2^63 logs.
  pub run-Records :
      (C : Codec) (contracts : Result (List Address)) (config : FrontfillConfig)
      → (attempts : List Attempt) (w : Worlds H) → HasFreeNames config.sink w
      → 2 * length (logs_of attempts) < u64_mod
      → (run H C contracts config attempts w).0 ≡ some (ok tt)
      → Records config.sink w
          (all_events C (logs_of attempts))
          (run H C contracts config attempts w).1
  run-Records C contracts config attempts w free bound h =
      let (S, runtime, positive, built, same) = run-started H C contracts config attempts w h in
      let es = all_events C (logs_of attempts) in
      let on : SharedSink → Outcome = λ S. run_on H C contracts config attempts S runtime in
      let h' : (on S).0 ≡ some (ok tt) = ap (λ x. x.0) (sym same) ∙ h in
      let ends : Records config.sink w es (on S).1 =
        elim (build_storage-eq-ok H config.sink w S built) [
          | inl (dir, chosen, is) ↦
              subst (λ sink. Records sink w es (on S).1) (sym chosen)
                (subst (λ S. Records (parquet dir) w es (on S).1) (sym is)
                  (run_on-parquet C contracts config attempts w runtime positive dir
                    (subst (λ sink. HasFreeNames sink w) chosen free) bound
                    (ap (λ S. (on S).0) (sym is) ∙ h')))
          | inr (brokers, prefix, storage, chosen, _, made, is) ↦
              subst (λ sink. Records sink w es (on S).1) (sym chosen)
                (subst (λ S. Records (kafka (some brokers) prefix) w es (on S).1) (sym is)
                  (run_on-kafka C contracts config attempts w runtime positive brokers prefix
                    storage made (ap (λ S. (on S).0) (sym is) ∙ h')))
        ] in
      subst (λ x. Records config.sink w es x.1) (sym same) ends
