-- ===== src/Frontfill/Live.antt =====
-- The loop of `run` in src/frontfill.rs over the logs of one subscription.
pub mod Safety
pub mod Errors
pub mod Delivery
pub mod Rotation
pub mod Success
use polymarket_indexer.Prelude.{
  ℕ, ◌+◌, String, ◌<>◌, Bool, true, false, Option, none, some, List, [], ◌∷◌, leb, saturating_add64,
  if◌then◌else◌,
}
use polymarket_indexer.Prelude.Outcome.{Result, ok, err}
use polymarket_indexer.Prelude.Exec.{Exec, continue, pure, fail, ◌>>=◌, ◌>>◌}
use polymarket_indexer.Storage.Sink.{EventSink}
use polymarket_indexer.Decode.{Log, DecodedEvent, Codec, decode_log}
use polymarket_indexer.Metrics.{FrontfillMetrics, observe_log, observe_decoded_type}

-- The locals of `run`: `stopped` holds what the metrics said when the runtime was taken down.
pub record Live (Sink : Type 0) : Type 0 where
  pub storage : Sink
  pub metrics_runtime : Option FrontfillMetrics
  pub stopped : Option FrontfillMetrics
  pub next_rotation_block : Option ℕ

-- The clock at a log: `unix`, and the instants that `observe_log` and `observe_decoded_type` read.
pub record Clock : Type 0 where
  pub unix : ℕ
  pub seen : ℕ
  pub seen_pruned : ℕ
  pub typed : ℕ
  pub typed_pruned : ℕ

module _ {Sink : Type 0} where
  -- `if let Some(runtime) = metrics_runtime.as_ref()`
  abbrev pub with_metrics : (FrontfillMetrics → FrontfillMetrics) → Live Sink → Live Sink
  with_metrics f w = record w {
    metrics_runtime = elim w.metrics_runtime [ none ↦ none | some m ↦ some (f m) ];
  }

  abbrev pub update : (FrontfillMetrics → FrontfillMetrics) → Exec (Live Sink) (Unit {0})
  update f w = (ok tt, with_metrics f w)

  -- `if let Some(runtime) = metrics_runtime.take()`: the gauge falls, and the runtime shuts down. That
  -- `shutdown` of a runtime that was started comes to an end is `shut_down_runtime` of Metrics/Server.
  abbrev pub take_down : Exec (Live Sink) (Unit {0})
  take_down w = (
    ok tt,
    record w {
      metrics_runtime = none;
      stopped = elim w.metrics_runtime [
        | none ↦ w.stopped
        | some m ↦ some (record m { ws_connected = 0 })
      ];
    },
  )

  abbrev pub on_storage {ℓ} : {A : Type ℓ} → Exec Sink A → Exec (Live Sink) A
  on_storage m w = ((m w.storage).0, record w { storage = (m w.storage).1 })

  abbrev pub schedule : ℕ → Exec (Live Sink) (Unit {0})
  schedule block w = (ok tt, record w { next_rotation_block = some block })

  abbrev pub missing {ℓ} : {A : Type ℓ} → String → Exec (Live Sink) A
  missing what = do
    update (λ m. record m { missing_metadata_total = m.missing_metadata_total + 1 })
    take_down
    fail ("frontfill received log missing " <> what)

  abbrev pub require {ℓ} : {A : Type ℓ} → String → Option A → Exec (Live Sink) A
  require what none = missing what
  require what (some a) = pure a

-- The part of `run` for one log, with `config.flush_blocks`. The timer of a write is a count of its
-- observations.
module _ (S : EventSink) (C : Codec) (flush_blocks : ℕ) where
  unfoldable pub rotate_at : ℕ → Exec (Live S.State) (Unit {0})
  rotate_at block_number = do
    on_storage S.rotate
    update (λ m. record m { rotate_total = m.rotate_total + 1 })
    schedule (saturating_add64 block_number flush_blocks)

  unfoldable pub rotate_if_due : ℕ → Exec (Live S.State) (Unit {0})
  rotate_if_due block_number w = elim w.next_rotation_block [
    | none ↦ schedule (saturating_add64 block_number flush_blocks) w
    | some target_block ↦
        if leb target_block block_number then rotate_at block_number w else (ok tt, w)
  ]

  unfoldable pub decode : Log → Exec (Live S.State) (Option DecodedEvent)
  decode log w = elim (decode_log C log) [
    | ok decoded ↦ (ok decoded, w)
    | err e ↦
        (do
          update (λ m. record m { decode_errors_total = m.decode_errors_total + 1 })
          take_down
          fail e)
          w
  ]

  timed : FrontfillMetrics → FrontfillMetrics
  timed m = record m { sink_write_seconds = m.sink_write_seconds + 1 }

  -- What follows `write_event`, on its result.
  unfoldable pub finish_write : Result (Unit {0}) → Exec (Live S.State) (Unit {0})
  unfolding timed
  finish_write (ok _) = update timed
  finish_write (err e) = do
    update (λ m. record m { write_errors_total = m.write_errors_total + 1 })
    update timed
    take_down
    fail e

  unfoldable pub store :
      Clock → Option DecodedEvent → ℕ → String → ℕ → Exec (Live S.State) (Unit {0})
  store clock none block_number tx_hash log_index = pure tt
  store clock (some d) block_number tx_hash log_index = do
    update (observe_decoded_type d.event_type clock.typed clock.typed_pruned)
    result ← on_storage (λ s.
        let (r, s') = S.write_event d.event_type block_number tx_hash log_index d.columns s in
        (ok r, s'))
    finish_write result

  -- Under the lock of the storage.
  unfoldable pub ingest : Clock → Log → ℕ → String → ℕ → Exec (Live S.State) (Unit {0})
  ingest clock log block_number tx_hash log_index = do
    rotate_if_due block_number
    decoded ← decode log
    store clock decoded block_number tx_hash log_index

  unfoldable pub handle_log : Clock → Log → Exec (Live S.State) (Unit {0})
  handle_log clock log = do
    block_number ← require "block_number" log.block_number
    tx_hash ← require "transaction_hash" log.transaction_hash
    log_index ← require "log_index" log.log_index
    update (observe_log block_number clock.unix clock.seen clock.seen_pruned)
    ingest clock log block_number (C.hash_text tx_hash) log_index

  -- `tokio::signal::ctrl_c()` with its result.
  unfoldable pub shut_down : Result (Unit {0}) → Exec (Live S.State) (Unit {0})
  shut_down signal = do
    (λ w. (signal, w))
    on_storage S.close
    update (λ m. record m { shutdown_total = m.shutdown_total + 1 })
    take_down
