-- ===== src/Examples/Rates.antt =====
-- The metrics and the credentials at concrete data.
use polymarket_indexer.Prelude.{
  String, ◌≡◌, inl, refl, true, some, List, [], ◌∷◌, arith, eq_iff, ◌<>◌,
}
use polymarket_indexer.Prelude.Outcome.{ok}
use polymarket_indexer.Metrics.{FrontfillMetrics, registered, observe_log}
use polymarket_indexer.Metrics.Rates.{IsAccurate, registered-IsAccurate, observe_log-IsAccurate}
use polymarket_indexer.Metrics.Updater.{
  Update, log_seen, type_seen, ticked, shut_down, spawn_rate_updater, run_updates,
}
use polymarket_indexer.Metrics.Updater.History.{after_update, after_updates, run_updates-IsAccurate}
use polymarket_indexer.Backfill.Auth.{header_text}
use polymarket_indexer.Frontfill.Auth.{
  Authorization, bearer, raw, eq_ignore_ascii_case, build_ws_auth,
}
use polymarket_indexer.Frontfill.Auth.Agreement.{AuthorizationText, build_ws_auth-header_text}

abbrev observed : FrontfillMetrics
observed = observe_log 3 1_700 10 11 registered

observed-IsAccurate : IsAccurate 10 observed
observed-IsAccurate =
    observe_log-IsAccurate 0 10 11 registered (registered-IsAccurate 0) (omega arith) 3 1_700

abbrev sent : Authorization → String
sent (bearer key) = "Bearer" <> " " <> key
sent (raw value) = value

abbrev sent_text : AuthorizationText
sent_text = record { text = sent; text-bearer = λ key. refl; text-raw = λ value. refl }

is_authorization : eq_ignore_ascii_case "authorization" "authorization" ≡ true
unfolding eq_ignore_ascii_case
is_authorization = refl

build_ws_auth-header_text_example :
    (auth : Authorization) × (build_ws_auth (some "abc") "authorization" "Bearer" ≡ ok (some auth))
    × (sent auth ≡ header_text "Bearer" "abc")
build_ws_auth-header_text_example =
    build_ws_auth-header_text sent_text "abc" "authorization" "Bearer"
      (ground (arith, eq_iff "abc" "")) is_authorization (inl refl)

-- A tick after the shutdown does nothing.
abbrev updates : List Update
updates =
    log_seen 3 1_700 10 11
    ∷ ticked 5_000
    ∷ type_seen "OrderFilled" 12 13
    ∷ shut_down
    ∷ ticked 70_000_000_000
    ∷ log_seen 4 1_760 60_000_000_011 60_000_000_012
    ∷ []

run_updates-IsAccurate_example :
    IsAccurate 60_000_000_011 (run_updates updates (spawn_rate_updater registered)).shared
unfolding after_updates after_update
run_updates-IsAccurate_example =
    run_updates-IsAccurate updates
      (omega arith, (omega arith, (omega arith, (omega arith, (omega arith, (omega arith, tt))))))
