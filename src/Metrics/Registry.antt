-- ===== src/Metrics/Registry.antt =====
-- `FrontfillMetrics::register` of src/metrics.rs, and the answer of `/metrics`.
pub mod Registration
use polymarket_indexer.Prelude.{ℕ, String, Option, none, some, List, [], ◌∷◌}
use polymarket_indexer.Prelude.Outcome.{Result, ok, err, ◌>>=◌}
use polymarket_indexer.Prelude.Exec
use polymarket_indexer.Prelude.Exec.{Exec, lift, pure}
use polymarket_indexer.Metrics.{FrontfillMetrics, registered}

pub data MetricKind : Type 0 where
  gauge gauge_vec int_counter int_counter_vec histogram : MetricKind

-- The arguments of `Gauge::new` and its like.
pub record Opts : Type 0 where
  pub kind : MetricKind
  pub name : String
  pub help : String
  pub labels : List String

-- What the program uses of `prometheus`.
pub record Prometheus : Type 1 where
  pub Registry : Type 0
  pub Metric : Type 0
  pub Bytes : Type 0
  pub new_registry : Registry
  pub new_metric : Opts → Result Metric
  pub register_metric : Metric → Exec Registry (Unit {0})
  -- `encode` of the `TextEncoder` on what `gather` returns, and `format_type`.
  pub encode : Registry → Result Bytes
  pub format_type : String
  pub as_bytes : String → Bytes

abbrev opts : MetricKind → String → String → List String → Opts
opts kind name help labels = record { kind = kind; name = name; help = help; labels = labels }

-- The metrics of the live run, in the order in which they are made and registered.
unfoldable pub frontfill_opts : List Opts
frontfill_opts =
    opts gauge "polymarket_frontfill_current_block_number"
      "Latest block number observed by frontfill" []
    ∷ opts int_counter "polymarket_frontfill_logs_total" "Total logs observed by frontfill" []
    ∷ opts int_counter_vec "polymarket_frontfill_logs_by_type_total"
        "Total decoded logs by event type" ("event_type" ∷ [])
    ∷ opts gauge "polymarket_frontfill_logs_per_minute" "Rolling 60-second log rate as logs/min" []
    ∷ opts gauge_vec "polymarket_frontfill_logs_per_minute_by_type"
        "Rolling 60-second log rate by event type as logs/min" ("event_type" ∷ [])
    ∷ opts int_counter "polymarket_frontfill_decode_errors_total" "Total decode errors in frontfill"
        []
    ∷ opts int_counter "polymarket_frontfill_write_errors_total"
        "Total sink write errors in frontfill" []
    ∷ opts int_counter "polymarket_frontfill_missing_metadata_total"
        "Total logs rejected due to missing block_number, transaction_hash, or log_index" []
    ∷ opts int_counter "polymarket_frontfill_rotate_total" "Total sink rotations triggered" []
    ∷ opts int_counter "polymarket_frontfill_shutdown_total"
        "Total frontfill shutdown signals handled" []
    ∷ opts histogram "polymarket_frontfill_sink_write_seconds" "Sink write latency in seconds" []
    ∷ opts gauge "polymarket_frontfill_ws_connected"
        "WebSocket connection status (1 connected, 0 disconnected)" []
    ∷ opts gauge "polymarket_frontfill_last_log_unix_seconds" "Unix timestamp of last observed log"
        []
    ∷ []

module _ (P : Prometheus) where
  open P use {Registry, Metric, Bytes}

  unfoldable pub new_metrics : List Opts → Result (List Metric)
  new_metrics [] = ok []
  new_metrics (o ∷ os) = do metric ← P.new_metric o; metrics ← new_metrics os; ok (metric ∷ metrics)

  unfoldable pub register_all : List Metric → Exec Registry (Unit {0})
  register_all [] r = (ok tt, r)
  register_all (metric ∷ metrics) r = Exec.◌>>◌ (P.register_metric metric) (register_all metrics) r

  unfoldable pub register : Exec Registry FrontfillMetrics
  unfolding new_metrics register_all frontfill_opts
  register r = elim (new_metrics frontfill_opts) [
    | err e ↦ (err e, r)
    | ok metrics ↦ Exec.◌>>◌ (register_all metrics) (pure registered) r
  ]

  unfoldable pub render_metrics : Registry → Result (String × Bytes)
  render_metrics r = do output ← P.encode r; ok (P.format_type, output)

  -- Status, headers and body. `from_str` is that of `HeaderValue`, which may refuse a text.
  unfoldable pub metrics_handler :
      (String → Option String) → Registry → ℕ × List (String × String) × Bytes
  unfolding render_metrics
  metrics_handler from_str r = elim (render_metrics r) [
    | ok (content_type, body) ↦ elim (from_str content_type) [
      | some value ↦ (200, ("content-type", value) ∷ [], body)
      | none ↦ (200, [], body)
    ]
    | err _ ↦ (500, [], P.as_bytes "metrics encode error")
  ]
