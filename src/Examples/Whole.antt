-- ===== src/Examples/Whole.antt =====
-- A whole live run on each sink, and a run of calls on each.
use mathlib.Core.List.{Perm}
use polymarket_indexer.Prelude.{
  length, ◌*◌, u64_mod, ℕ, ◌<◌, String, ◌≡◌, ◌≢◌, ◌<>◌, refl, true, some, none, List, [], ◌∷◌, ◌++◌,
  arith,
}
use polymarket_indexer.Prelude.Dict.{insert, lookup, contains_key}
use polymarket_indexer.Prelude.Decimal.{decimal}
use polymarket_indexer.Prelude.Outcome.{Result, ok, err}
use polymarket_indexer.Contracts.{Address}
use polymarket_indexer.Decode.{
  decode_log, decode_as, to_columns, fields, value_to_string, event_name,
}
use polymarket_indexer.Storage.Calls.{
  SinkEvent, Call, write, rotate, close, events_of, call, run_calls, Reaches,
}
use polymarket_indexer.Storage.Parquet
use polymarket_indexer.Storage.Parquet.{Machine, parquet_sink, file_name}
use polymarket_indexer.Storage.Parquet.Ledger.{stored, contents}
use polymarket_indexer.Storage.Parquet.Refinement.{HoldsAll, stored-run_calls}
use polymarket_indexer.Storage.Parquet.Names.{file_name-injective}
use polymarket_indexer.Storage.Kafka
use polymarket_indexer.Storage.Kafka.{Client, kafka_sink}
use polymarket_indexer.Storage.Kafka.Lasting.{after_writes, get_or_create_schema-fixes}
use polymarket_indexer.Storage.Kafka.Sending.{Message}
use polymarket_indexer.Storage.Kafka.Refinement.{CarriesAll, sent-run_calls}
use polymarket_indexer.Metrics.{registered}
use polymarket_indexer.Metrics.Server.{start_metrics_runtime}
use polymarket_indexer.Metrics.Registry.{frontfill_opts, register}
use polymarket_indexer.Metrics.Registry.Registration.{names_of, register-ok}
use polymarket_indexer.Frontfill.Auth.{build_ws_connect, build_filter}
use polymarket_indexer.Frontfill.Live.{
  Clock, handle_log, shut_down, ingest, rotate_if_due, rotate_at, decode, store, finish_write,
}
use polymarket_indexer.Frontfill.Session.{
  Attempt, refused, subscribed, arrived, ctrl_c, run_attempts,
}
use polymarket_indexer.Frontfill.Session.Events.{logs_of, logs_of_attempt, signals, all_events}
use polymarket_indexer.Frontfill.Start
use polymarket_indexer.Frontfill.Start.{SinkConfig, Outcome}
use polymarket_indexer.Frontfill.Start.Whole.{Records}
use polymarket_indexer.Commands.{Args, SinkType, parquet_type, kafka_type, main, frontfill_config}
use polymarket_indexer.Commands.Sinks.{Asks, main-Records}
use polymarket_indexer.Examples.Fixtures.{codec, log_at, Batch}
use polymarket_indexer.Examples.Services.{
  file_system, Row, disk_laws, broker, broker_laws, schema_laws, prometheus, registry_laws, host,
  worlds,
}

abbrev contracts : Result (List Address)
contracts = ok (1 ∷ [])

abbrev args : SinkType → Args
args sink = record {
  flush_blocks = 10;
  rpc_url = "ws://localhost";
  frontfill_start_block = none;
  rpc_auth_key = none;
  rpc_auth_header = "Authorization";
  rpc_auth_scheme = "Bearer";
  output_dir = "output";
  sink = sink;
  kafka_brokers = some "localhost:9092";
  kafka_topic_prefix = "polymarket";
  metrics_enabled = true;
  metrics_bind = "127.0.0.1";
  metrics_port = 9090;
}

abbrev clock : Clock
clock = record { unix = 1_700; seen = 10; seen_pruned = 11; typed = 12; typed_pruned = 13 }

-- Three logs over two connections; the second log is due for a rotation.
abbrev attempts : List Attempt
attempts =
    refused
    ∷ subscribed (arrived clock (log_at 7 3 0) ∷ arrived clock (log_at 7 20 0) ∷ [])
    ∷ subscribed (arrived clock (log_at 7 21 4) ∷ ctrl_c (ok tt) ∷ [])
    ∷ []

abbrev outcome : SinkType → Outcome
outcome sink = main host codec contracts (args sink) attempts worlds

parquet_returned : (outcome parquet_type).0 ≡ some (ok tt)
unfolding main frontfill_config Start.run register build_ws_connect build_filter handle_log ingest
    rotate_if_due rotate_at decode decode_log decode_as to_columns fields value_to_string store
    finish_write shut_down lookup insert contains_key event_name start_metrics_runtime run_attempts
    Parquet.write_event Parquet.get_or_create_schema Parquet.new Parquet.ensure_dir
    Parquet.ensure_writer Parquet.open_writer Parquet.attach_writer Parquet.add_writer
    Parquet.write_batch Parquet.rotate_writers Parquet.close_writers Parquet.close_all
    Parquet.bump_file_set Parquet.expected_schema_names Parquet.schema_names Parquet.new_schema
    Parquet.base_fields Parquet.required
parquet_returned = refl

kafka_returned : (outcome kafka_type).0 ≡ some (ok tt)
unfolding main frontfill_config Start.run register build_ws_connect build_filter handle_log ingest
    rotate_if_due rotate_at decode decode_log decode_as to_columns fields value_to_string store
    finish_write shut_down lookup insert contains_key event_name start_metrics_runtime run_attempts
    Kafka.new Kafka.write_event Kafka.get_or_create_schema Kafka.build_record Kafka.encode
    Kafka.send_message Kafka.expected_schema_names Kafka.schema_field_names Kafka.schema_json
kafka_returned = refl

few_logs : 2 * length (logs_of attempts) < u64_mod
unfolding logs_of logs_of_attempt signals
few_logs = omega arith

main-Records_example :
    (sink : SinkConfig) × Asks (args parquet_type) sink
    × Records host disk_laws broker_laws sink worlds
        (all_events codec (logs_of attempts))
        (outcome parquet_type).1
main-Records_example =
    main-Records host codec contracts (args parquet_type) attempts worlds disk_laws broker_laws
      (λ et millis id time. refl) few_logs parquet_returned

abbrev event : ℕ → SinkEvent
event block = record {
  event_type = "OrderCancelled";
  block_number = block;
  tx_hash = "5";
  log_index = 0;
  columns = ("order_hash", decimal block) ∷ [];
}

-- Two events with a rotation between them.
abbrev calls : List Call
calls = write (event 3) ∷ rotate ∷ write (event 20) ∷ []

abbrev machine : Machine file_system
machine = record { storage = Parquet.new file_system "data"; world = ([], []) }

abbrev machine_after : Machine file_system
machine_after = (run_calls (parquet_sink file_system) (calls ++ close ∷ []) machine).1

parquet_reached : Reaches (parquet_sink file_system) (calls ++ close ∷ []) machine machine_after
unfolding run_calls call lookup insert contains_key Parquet.write_event Parquet.get_or_create_schema
    Parquet.new Parquet.ensure_dir Parquet.ensure_writer Parquet.open_writer Parquet.attach_writer
    Parquet.add_writer Parquet.write_batch Parquet.rotate_writers Parquet.close_writers
    Parquet.close_all Parquet.bump_file_set Parquet.expected_schema_names Parquet.schema_names
    Parquet.new_schema Parquet.base_fields Parquet.required
parquet_reached = refl

stored-run_calls_example :
    (bs : List Batch) × HoldsAll file_system disk_laws (events_of calls) bs
    × Perm
        (stored file_system disk_laws machine_after.world)
        (bs ++ contents file_system disk_laws machine)
unfolding Parquet.new
stored-run_calls_example =
    stored-run_calls file_system disk_laws calls machine machine_after tt (omega arith)
      (λ et millis id time set free. refl) parquet_reached

abbrev client : Client broker
client = record {
  storage = record { producer = tt; topic_prefix = "polymarket"; schemas = [] };
  world = [];
}

abbrev client_after : Client broker
client_after = (run_calls (kafka_sink broker) calls client).1

kafka_reached : Reaches (kafka_sink broker) calls client client_after
unfolding run_calls call lookup insert Kafka.write_event Kafka.get_or_create_schema
    Kafka.build_record Kafka.encode Kafka.send_message Kafka.expected_schema_names
    Kafka.schema_field_names Kafka.schema_json
kafka_reached = refl

sent-run_calls_example :
    (msgs : List (Message Row)) × CarriesAll broker broker_laws "polymarket" (events_of calls) msgs
    × (client_after.world ≡ [] ++ msgs)
sent-run_calls_example = sent-run_calls broker broker_laws calls client client_after kafka_reached

abbrev schema : List String
schema = "event_type" ∷ "block_number" ∷ "transaction_hash" ∷ "log_index" ∷ "order_hash" ∷ []

abbrev order_hash : List String
order_hash = "order_hash" ∷ []

abbrev price : List String
price = "price" ∷ []

schema_made : (Kafka.get_or_create_schema broker "OrderCancelled" order_hash client).0 ≡ ok schema
unfolding lookup Kafka.get_or_create_schema Kafka.schema_json
schema_made = refl

abbrev client_known : Client broker
client_known = (Kafka.get_or_create_schema broker "OrderCancelled" order_hash client).1

-- A write of another type, and one of the same type.
abbrev between : List SinkEvent
between =
    record {
      event_type = "OrdersMatched";
      block_number = 4;
      tx_hash = "6";
      log_index = 1;
      columns = ("taker_order_hash", "1") ∷ ("maker_order_hash", "2") ∷ [];
    }
    ∷ event 20
    ∷ []

abbrev client_later : Client broker
client_later = after_writes broker between client_known

get_or_create_schema-fixes_example :
    (price ≡ order_hash
      → Kafka.get_or_create_schema broker "OrderCancelled" price client_later
        ≡ (ok schema, client_later))
    × (price ≢ order_hash
        → Kafka.get_or_create_schema broker "OrderCancelled" price client_later
          ≡ (err ("schema mismatch for event type '" <> "OrderCancelled" <> "'"), client_later))
get_or_create_schema-fixes_example =
    get_or_create_schema-fixes broker schema_laws "OrderCancelled" order_hash price client schema
      between schema_made

abbrev millis : ℕ
millis = 1_700

abbrev id : ℕ
id = 2

file_name-injective_example : (millis ≡ millis) × (id ≡ id)
file_name-injective_example = file_name-injective millis id millis id refl

register-ok_example :
    ((register prometheus []).0 ≡ ok registered)
    × ((register prometheus []).1 ≡ names_of frontfill_opts)
register-ok_example = register-ok prometheus registry_laws
