-- ===== src/Metrics/Updater.antt =====
-- `spawn_rate_updater` of src/metrics.rs: a task that shares the metrics with the live run, until it
-- is shut down. Each of them holds the lock of the rates for a whole step.
pub mod History
use polymarket_indexer.Prelude.{ℕ, String, Bool, true, false, List, [], ◌∷◌, if◌then◌else◌}
use polymarket_indexer.Metrics.{
  FrontfillMetrics, registered, observe_log, observe_decoded_type, rate_tick,
}

pub record Updater : Type 0 where
  pub shared : FrontfillMetrics
  pub is_running : Bool

-- Two calls of the live run with their clocks, a tick of the interval, and `RateUpdaterHandle::shutdown`.
pub data Update : Type 0 where
  log_seen : (block_number unix now later : ℕ) → Update
  type_seen : String → (now later : ℕ) → Update
  ticked : (now : ℕ) → Update
  shut_down : Update

unfoldable pub spawn_rate_updater : FrontfillMetrics → Updater
spawn_rate_updater m = record { shared = m; is_running = true }

-- The loop of the task is at its `select!` whenever another step is taken.
unfoldable pub update : Update → Updater → Updater
update (log_seen block_number unix now later) u = record u {
  shared = observe_log block_number unix now later u.shared;
}
update (type_seen event_type now later) u = record u {
  shared = observe_decoded_type event_type now later u.shared;
}
update (ticked now) u = if u.is_running then record u { shared = rate_tick now u.shared } else u
update shut_down u = record u { is_running = false }

unfoldable pub run_updates : List Update → Updater → Updater
unfolding update
run_updates [] u = u
run_updates (x ∷ xs) u = run_updates xs (update x u)
