-- ===== src/Examples/Live.antt =====
-- The live run with the sink and the codec of the fixtures.
use polymarket_indexer.Prelude.{
  length, ◌≤◌, ◌*◌, ℕ, ◌-◌, ◌<◌, ◌<>◌, ◌≡◌, ◌⊎◌, inl, inr, refl, some, none, List, [], ◌∷◌, ◌++◌,
  map, arith, u64_mod, true,
}
use polymarket_indexer.Prelude.Outcome.{Result, ok, err}
use polymarket_indexer.Decode.{decode_log, decode_as, to_columns, fields, value_to_string}
use polymarket_indexer.Metrics.{registered}
use polymarket_indexer.Frontfill.Live.{
  Live, Clock, handle_log, shut_down, ingest, rotate_if_due, rotate_at, decode, store, finish_write,
}
use polymarket_indexer.Frontfill.Auth.{build_ws_connect, build_filter}
use polymarket_indexer.Frontfill.Live.Safety.{IsFirstMissing, after_miss, handle_log-missing}
use polymarket_indexer.Frontfill.Live.Delivery.{rotations, log_events}
use polymarket_indexer.Frontfill.Live.Rotation.{handle_log-rotates}
use polymarket_indexer.Frontfill.Live.Errors.{handle_log-err}
use polymarket_indexer.Frontfill.Session.{
  Attempt, refused, unsubscribed, run_attempts, subscribed, arrived, ctrl_c, Config, Session, run,
}
use polymarket_indexer.Storage.Calls.{Call, NoClose, write, close, events_of, Reaches}
use polymarket_indexer.Frontfill.Session.Waits.{waits_from, waits-run_attempts}
use polymarket_indexer.Frontfill.Session.Delivery.Signals.{any_signals, run-returns}
use polymarket_indexer.Frontfill.Session.Events.{signals, has_signal, logs_of, all_events}
use polymarket_indexer.Frontfill.Session.Delivery.Runs.{run-Reaches}
use polymarket_indexer.Examples.Fixtures.{codec, log_at, unplaced, counter}

abbrev clock : Clock
clock = record { unix = 1_700; seen = 10; seen_pruned = 11; typed = 12; typed_pruned = 13 }

abbrev live : Live (List ℕ)
live = record {
  storage = [];
  metrics_runtime = some registered;
  stopped = none;
  next_rotation_block = some 3;
}

unplaced_first : IsFirstMissing unplaced "transaction_hash"
unplaced_first = inr (inl (3, refl, refl, refl))

handle_log-missing_example : handle_log counter codec 10 clock unplaced live ≡ (
  err ("frontfill received log missing " <> "transaction_hash"),
  record live { metrics_runtime = none; stopped = after_miss (some registered) none },
)
handle_log-missing_example =
    handle_log-missing counter codec 10 clock unplaced live "transaction_hash" unplaced_first

placed : (b : ℕ) → (log_at 7 3 0).block_number ≡ some b → b < u64_mod - 1
placed b h = let e : 3 ≡ b = cc in omega arith

handled : (handle_log counter codec 10 clock (log_at 7 3 0) live).0 ≡ ok tt
unfolding handle_log ingest rotate_if_due rotate_at decode decode_log decode_as to_columns fields
    value_to_string store finish_write
handled = refl

handle_log-rotates_example :
    (block : ℕ) × (target : ℕ) × ((log_at 7 3 0).block_number ≡ some block)
    × Reaches counter
        (rotations (some 3) block ++ map write (log_events codec (log_at 7 3 0)))
        []
        (handle_log counter codec 10 clock (log_at 7 3 0) live).1.storage
    × ((handle_log counter codec 10 clock (log_at 7 3 0) live).1.next_rotation_block ≡ some target)
    × (block < target)
handle_log-rotates_example =
    handle_log-rotates counter codec 10 clock (log_at 7 3 0) live (omega arith) placed handled

bad_data : (handle_log counter codec 10 clock (log_at 1 3 0) live).0 ≡ err "bad data"
unfolding handle_log ingest rotate_if_due rotate_at decode decode_log decode_as
bad_data = refl

handle_log-err_example :
    ((handle_log counter codec 10 clock (log_at 1 3 0) live).1.metrics_runtime ≡ none)
    ⊎ (((counter.rotate []).0 ≡ err "bad data")
        × ((handle_log counter codec 10 clock (log_at 1 3 0) live).1.storage ≡ []))
handle_log-err_example =
    handle_log-err counter codec 10 clock (log_at 1 3 0) live "bad data" bad_data

abbrev signal : Result (Unit {0})
signal = ok tt

abbrev config : Config
config = record {
  flush_blocks = 10;
  start_block = none;
  rpc_url = "ws://localhost";
  rpc_auth_key = none;
  rpc_auth_header = "Authorization";
  rpc_auth_scheme = "Bearer";
}

abbrev session : Session (List ℕ)
session = record { live = live; reconnect_attempt = 0; waits = [] }

abbrev attempts : List Attempt
attempts =
    refused ∷ subscribed (arrived clock (log_at 7 3 0) ∷ []) ∷ subscribed (ctrl_c (ok tt) ∷ []) ∷ []

returned : (run counter codec (ok (1 ∷ [])) config attempts session).0 ≡ some (ok tt)
unfolding run build_ws_connect build_filter handle_log ingest rotate_if_due rotate_at decode
    decode_log decode_as to_columns fields value_to_string store finish_write shut_down
returned = refl

run-Reaches_example :
    (calls : List Call) × Reaches counter
      (calls ++ close ∷ [])
      []
      (run counter codec (ok (1 ∷ [])) config attempts session).1.live.storage
    × (events_of calls ≡ all_events codec (logs_of attempts))
    × NoClose calls
    × (length calls ≤ 2 * length (logs_of attempts))
run-Reaches_example = run-Reaches counter codec (ok (1 ∷ [])) config attempts session returned

-- Two failures, a stream that ends after one log, and another failure.
abbrev failing : List Attempt
failing = refused ∷ unsubscribed ∷ subscribed (arrived clock (log_at 7 3 0) ∷ []) ∷ refused ∷ []

goes_on : (run_attempts counter codec (ok (1 ∷ [])) config failing session).0 ≡ none
unfolding run_attempts build_ws_connect build_filter handle_log ingest rotate_if_due rotate_at
    decode decode_log decode_as to_columns fields value_to_string store finish_write
goes_on = refl

waits-run_attempts_example :
    (run_attempts counter codec (ok (1 ∷ [])) config failing session).1.waits ≡ 1 ∷ 2 ∷ 1 ∷ 2 ∷ []
unfolding waits_from
waits-run_attempts_example =
    waits-run_attempts counter codec (ok (1 ∷ [])) config failing session refl goes_on

signalled : any_signals attempts ≡ true
unfolding any_signals signals has_signal
signalled = refl

run-returns_example :
    (r : Result (Unit {0})) × ((run counter codec (ok (1 ∷ [])) config attempts session).0 ≡ some r)
run-returns_example = run-returns counter codec (ok (1 ∷ [])) config attempts session signalled
