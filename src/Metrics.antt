-- ===== src/Metrics.antt =====
-- src/metrics.rs: the counters and gauges of the live run, the rolling rates, and the health checks.
-- The gauges hold whole numbers, which an `f64` holds exactly below 2^53. An `Instant` is a number
-- of nanoseconds.
pub mod Window
pub mod Rates
pub mod Health
pub mod Updater
pub mod Registry
pub mod Tasks
pub mod Server
use polymarket_indexer.Prelude.{
  ℕ, zero, suc, ◌+◌, ◌-◌, String, Bool, true, false, not, Option, none, some, List, [], ◌∷◌, ◌++◌,
  map, ltb, leb, ◌==◌, length, if◌then◌else◌,
}
use polymarket_indexer.Prelude.Dict.{Dict, lookup, insert}

pub record RateState : Type 0 where
  pub total : List ℕ
  pub by_type : Dict (List ℕ)

pub record FrontfillMetrics : Type 0 where
  pub current_block_number : ℕ
  pub logs_total : ℕ
  pub logs_by_type_total : Dict ℕ
  pub logs_per_minute : ℕ
  pub logs_per_minute_by_type : Dict ℕ
  pub decode_errors_total : ℕ
  pub write_errors_total : ℕ
  pub missing_metadata_total : ℕ
  pub rotate_total : ℕ
  pub shutdown_total : ℕ
  pub sink_write_seconds : ℕ
  pub ws_connected : ℕ
  pub last_log_unix_seconds : ℕ
  pub rate_state : RateState

-- `register`: everything starts at zero.
abbrev pub registered : FrontfillMetrics
registered = record {
  current_block_number = 0;
  logs_total = 0;
  logs_by_type_total = [];
  logs_per_minute = 0;
  logs_per_minute_by_type = [];
  decode_errors_total = 0;
  write_errors_total = 0;
  missing_metadata_total = 0;
  rotate_total = 0;
  shutdown_total = 0;
  sink_write_seconds = 0;
  ws_connected = 0;
  last_log_unix_seconds = 0;
  rate_state = record { total = []; by_type = [] };
}

-- 60 seconds.
abbrev pub window : ℕ
window = 60_000_000_000

-- `timestamp < now - 60s`, on signed instants.
abbrev pub expired : ℕ → ℕ → Bool
expired now timestamp = ltb (timestamp + window) now

-- The `while let Some(timestamp) = front()` of `prune_old_entries`.
unfoldable pub prune_front : ℕ → List ℕ → List ℕ
prune_front now [] = []
prune_front now (t ∷ ts) = let rest = prune_front now ts in if expired now t then rest else t ∷ ts

unfoldable pub prune_old_entries : ℕ → RateState → RateState
unfolding prune_front
prune_old_entries now s = record {
  total = prune_front now s.total;
  by_type = map (λ (k, ts). (k, prune_front now ts)) s.by_type;
}

-- The loop that sets the gauge of each event type.
unfoldable pub set_rates : Dict (List ℕ) → Dict ℕ → Dict ℕ
set_rates [] gauges = gauges
set_rates ((event_type, events) ∷ m) gauges = set_rates m (insert event_type (length events) gauges)

-- `prune_and_recalculate_rates` on the state `s`, which the metrics share; also a tick of the
-- background task of `spawn_rate_updater`.
unfoldable pub recalculate : ℕ → RateState → FrontfillMetrics → FrontfillMetrics
unfolding prune_old_entries set_rates
recalculate now s m =
    let s' = prune_old_entries now s in
    record m {
      rate_state = s';
      logs_per_minute = length s'.total;
      logs_per_minute_by_type = set_rates s'.by_type m.logs_per_minute_by_type;
    }

-- `observe_log`: `unix` is the wall clock, `now` the instant that is pushed, and `later` the one
-- that the pruning reads.
unfoldable pub observe_log : ℕ → ℕ → ℕ → ℕ → FrontfillMetrics → FrontfillMetrics
unfolding recalculate
observe_log block_number unix now later m =
    let s = m.rate_state in
    recalculate later (record s { total = s.total ++ now ∷ [] })
      (record m {
        logs_total = m.logs_total + 1;
        current_block_number = block_number;
        last_log_unix_seconds = unix;
      })

-- `with_label_values(..).inc()`
unfoldable pub increment : String → Dict ℕ → Dict ℕ
increment k m = elim (lookup k m) [ none ↦ insert k 1 m | some n ↦ insert k (n + 1) m ]

-- `entry(event_type).or_default().push_back(now)`
unfoldable pub push_back : String → ℕ → Dict (List ℕ) → Dict (List ℕ)
push_back k now m = elim (lookup k m) [
  | none ↦ insert k (now ∷ []) m
  | some ts ↦ insert k (ts ++ now ∷ []) m
]

unfoldable pub observe_decoded_type : String → ℕ → ℕ → FrontfillMetrics → FrontfillMetrics
unfolding recalculate increment push_back
observe_decoded_type event_type now later m =
    let s = m.rate_state in
    recalculate later (record s { by_type = push_back event_type now s.by_type })
      (record m { logs_by_type_total = increment event_type m.logs_by_type_total })

-- One `interval.tick()` of the background task.
unfoldable pub rate_tick : ℕ → FrontfillMetrics → FrontfillMetrics
unfolding recalculate
rate_tick now m = recalculate now m.rate_state m

-- A `Gauge` is a handle to a value that it shares with its clones: here, which of the metrics it
-- reads when it is asked.
abbrev pub Gauge : Type 0
Gauge = FrontfillMetrics → ℕ

pub record HealthState : Type 0 where
  pub ws_connected : Gauge
  pub last_log_unix_seconds : Gauge
  pub max_staleness_seconds : ℕ

-- The clones of gauges that `start_metrics_runtime` hands to the server.
unfoldable pub shared_health : HealthState
shared_health = record {
  ws_connected = λ m. m.ws_connected;
  last_log_unix_seconds = λ m. m.last_log_unix_seconds;
  max_staleness_seconds = 120;
}

-- At the time `now`, with the metrics as they then are. A gauge with a whole number is below 0.5 when
-- it is 0. `saturating_sub` is `-` on ℕ.
unfoldable pub is_healthy : ℕ → FrontfillMetrics → HealthState → Bool
is_healthy now m state =
    let last_log = state.last_log_unix_seconds m in
    if ltb (state.ws_connected m) 1
    then false
    else if last_log == 0
    then false
    else leb (now - last_log) state.max_staleness_seconds

-- Status and body.
unfoldable pub health_handler : ℕ → FrontfillMetrics → HealthState → ℕ × String
unfolding is_healthy
health_handler now m state = if is_healthy now m state then (200, "ok") else (503, "unhealthy")

unfoldable pub ready_handler : ℕ → FrontfillMetrics → HealthState → ℕ × String
unfolding is_healthy
ready_handler now m state = if is_healthy now m state then (200, "ready") else (503, "not ready")
