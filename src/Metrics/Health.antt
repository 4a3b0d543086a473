-- ===== src/Metrics/Health.antt =====
-- When the endpoints answer that the run is well.
use polymarket_indexer.Prelude.{ℕ, ◌+◌, ◌≤◌, ◌<◌, ◌≡◌, ◌↔◌, true, arith, if◌then◌else◌}
use polymarket_indexer.Metrics.{
  FrontfillMetrics, shared_health, is_healthy, health_handler, ready_handler,
}

-- The server finds the run healthy exactly if it is connected, and its last log is there and no more
-- than two minutes old.
is_healthy-shared_health_iff :
    (now : ℕ) (m : FrontfillMetrics)
    → (is_healthy now m shared_health ≡ true) ↔ (
        (0 < m.ws_connected)
        × (0 < m.last_log_unix_seconds)
        × (now ≤ m.last_log_unix_seconds + 120))
unfolding is_healthy shared_health
is_healthy-shared_health_iff now m = ground arith

-- Both endpoints answer 200 exactly for a healthy run, and 503 otherwise.
handlers_agree :
    (now : ℕ) (m : FrontfillMetrics)
    → ((health_handler now m shared_health).0
        ≡ (if is_healthy now m shared_health then 200 else 503))
      × ((ready_handler now m shared_health).0
          ≡ (if is_healthy now m shared_health then 200 else 503))
unfolding health_handler ready_handler
handlers_agree now m = ground arith
