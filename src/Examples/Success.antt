-- ===== src/Examples/Success.antt =====
-- A live run whose logs are in order, at concrete data.
use polymarket_indexer.Prelude.{ℕ, ◌≡◌, refl, some, none, true, List, [], ◌∷◌, All, arith}
use polymarket_indexer.Prelude.Outcome.{Result, ok}
use polymarket_indexer.Contracts.{Address}
use polymarket_indexer.Metrics.{registered}
use polymarket_indexer.Metrics.Server.{start_metrics_runtime}
use polymarket_indexer.Metrics.Registry.{register}
use polymarket_indexer.Frontfill.Auth.{WsConnect, Filter, latest, build_ws_connect, build_filter}
use polymarket_indexer.Frontfill.Live.{Clock}
use polymarket_indexer.Frontfill.Live.Success.{IsInOrder}
use polymarket_indexer.Frontfill.Session.{Attempt, refused, subscribed, arrived, ctrl_c}
use polymarket_indexer.Frontfill.Session.Delivery.Signals.{any_signals}
use polymarket_indexer.Frontfill.Session.Events.{signals, has_signal}
use polymarket_indexer.Frontfill.Session.Success.{IsAttemptInOrder}
use polymarket_indexer.Frontfill.Start.{SinkConfig, kafka, start_metrics}
use polymarket_indexer.Commands.{Args, kafka_type, choose_sink, frontfill_config, main}
use polymarket_indexer.Commands.Success.{main_succeeds}
use polymarket_indexer.Examples.Fixtures.{codec, log_at, cancelled, decode_log-cancelled}
use polymarket_indexer.Examples.Services.{schema_laws, broker-IsResponsive, host, worlds}

abbrev contracts : Result (List Address)
contracts = ok (1 ∷ [])

abbrev args : Args
args = record {
  flush_blocks = 10;
  rpc_url = "ws://localhost";
  frontfill_start_block = none;
  rpc_auth_key = none;
  rpc_auth_header = "Authorization";
  rpc_auth_scheme = "Bearer";
  output_dir = "output";
  sink = kafka_type;
  kafka_brokers = some "localhost:9092";
  kafka_topic_prefix = "polymarket";
  metrics_enabled = true;
  metrics_bind = "127.0.0.1";
  metrics_port = 9090;
}

abbrev clock : Clock
clock = record { unix = 1_700; seen = 10; seen_pruned = 11; typed = 12; typed_pruned = 13 }

-- The second log is due for a rotation, and the third comes over another connection.
abbrev attempts : List Attempt
attempts =
    refused
    ∷ subscribed (arrived clock (log_at 7 3 0) ∷ arrived clock (log_at 7 20 0) ∷ [])
    ∷ subscribed (arrived clock (log_at 7 21 4) ∷ ctrl_c (ok tt) ∷ [])
    ∷ []

log_at-IsInOrder : (block index : ℕ) → IsInOrder codec (log_at 7 block index)
log_at-IsInOrder block index = record {
  block = block;
  placed = refl;
  tx = 5;
  hashed = refl;
  index = index;
  indexed = refl;
  decoded = some (cancelled block);
  decodes = decode_log-cancelled block index;
}

attempts-IsAttemptInOrder : All (IsAttemptInOrder codec) attempts
attempts-IsAttemptInOrder = (
  tt,
  ((log_at-IsInOrder 3 0, (log_at-IsInOrder 20 0, tt)), ((log_at-IsInOrder 21 4, (refl, tt)), tt)),
)

signalled : any_signals attempts ≡ true
unfolding any_signals signals has_signal
signalled = refl

abbrev target : WsConnect
target = record { url = "ws://localhost"; auth = none }

connected : build_ws_connect "ws://localhost" none "Authorization" "Bearer" ≡ ok target
unfolding build_ws_connect
connected = refl

abbrev filter : Filter
filter = record { addresses = 1 ∷ []; from_block = latest }

filtered : build_filter contracts none ≡ ok filter
unfolding build_filter
filtered = refl

abbrev sink : SinkConfig
sink = kafka (some "localhost:9092") "polymarket"

chosen : choose_sink args ≡ ok sink
unfolding choose_sink
chosen = refl

started : (start_metrics host (frontfill_config args sink) worlds).0 ≡ ok (some registered)
unfolding start_metrics frontfill_config start_metrics_runtime register
started = refl

main_succeeds_example : (main host codec contracts args attempts worlds).0 ≡ some (ok tt)
main_succeeds_example =
    main_succeeds host codec contracts args attempts worlds sink (some registered) target filter
      chosen (refl, schema_laws, broker-IsResponsive) (omega arith) connected filtered started
      attempts-IsAttemptInOrder signalled
