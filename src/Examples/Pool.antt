-- ===== src/Examples/Pool.antt =====
-- The backfill's chunks at concrete data.
use polymarket_indexer.Prelude.{
  arith, ◌+◌, ℕ, ◌<◌, ◌≤◌, String, ◌≡◌, ◌≢◌, ◌↔◌, refl, some, none, List, [], ◌∷◌, length,
}
use polymarket_indexer.Prelude.Outcome.{ok, err}
use polymarket_indexer.Prelude.Exec.{Exec}
use polymarket_indexer.Contracts.{Address, contract_addresses}
use polymarket_indexer.Decode.{
  Log, event_name, fields, route, to_columns, topic0, value_to_string, decode_as, decode_log,
}
use polymarket_indexer.Backfill.RateLimiter.{acquires, reads, adds}
use polymarket_indexer.Backfill.Chunk.{
  Progress, process_chunk, push_failure, range_text, write_group, write_groups, process_logs,
  report_missing,
}
use polymarket_indexer.Backfill.Chunk.Outcomes.{IsClean, process_chunk-IsClean_iff}
use polymarket_indexer.Backfill.Provider.{Http, Provider, build_http_url, build_provider}
use polymarket_indexer.Backfill.Run.{
  BackfillConfig, check_config, conclude, fetching, Task, Pool, Event, starts, polls, limits,
  split_at, start_pool, run_pool, prepare, run, run_chunks, finish_run, step, start_next, poll_task,
  guard, join,
}
use polymarket_indexer.Backfill.RateLimiter
use polymarket_indexer.Backfill.Run.Verdict.{failed_fetch-conclude}
use polymarket_indexer.Backfill.Run.Schedule.{IsOrderly, run_pool-start_pool-IsOrderly}
use polymarket_indexer.Backfill.Run.Requests.{requests, refills, unasked}
use polymarket_indexer.Backfill.Run.Requests.Limit.{requests-start_pool}
use polymarket_indexer.Backfill.Run.Liveness.{Drains, run_pool-Drains}
use polymarket_indexer.Prelude.Dict.{insert, lookup}
use polymarket_indexer.Storage.Parquet.{base_fields, required}
use polymarket_indexer.Backfill.Auth.{build_auth_headers, header_text}
use polymarket_indexer.Backfill.Chunks.{chunk_loop, chunk_ranges}
use polymarket_indexer.Backfill.File.{
  chunk_file_name, file_schema, metadata_columns, value_columns, values_at, write_and_close,
  write_parquet_file,
}
use polymarket_indexer.Backfill.Group.{
  add_decoded, count_missing, push_row, to_row, add_log, group_logs,
}
use polymarket_indexer.Backfill.Rows.{insert_row, row_le, sort_rows}
use polymarket_indexer.Backfill.Run.Complete.{IsIngested}
use polymarket_indexer.Backfill.Run.Coverage.{run-IsIngested}
use polymarket_indexer.Examples.Fixtures.{codec, log_at, unplaced, Writer, disk}

abbrev pub config : BackfillConfig
config = record {
  start_block = 100;
  end_block = 119;
  chunk_size_by_block_number = 8;
  parallelism = 2;
  rate_limit_per_second = 1;
  rpc_http_url = "http://localhost";
  rpc_http_key = none;
  rpc_http_auth_header = "Authorization";
  rpc_http_auth_scheme = "Bearer";
  output_dir = "data";
}

abbrev fetch_some : List Address → ℕ → ℕ → Exec (List Writer) (List Log)
fetch_some addresses from to w = (ok (log_at 7 from 1 ∷ log_at 6 to 0 ∷ unplaced ∷ []), w)

abbrev fetch_none : List Address → ℕ → ℕ → Exec (List Writer) (List Log)
fetch_none addresses from to w = (err "timeout", w)

abbrev untouched : Progress (List Writer)
untouched = record { failures = []; world = [] }

process_chunk-IsClean_iff_example :
    (length (process_chunk disk codec "data" 100 107 fetch_some (1 ∷ []) untouched).failures ≡ 0)
    ↔ IsClean disk codec "data" 100 107 (fetch_some (1 ∷ []) 100 107) []
process_chunk-IsClean_iff_example =
    process_chunk-IsClean_iff disk codec "data" 100 107 fetch_some (1 ∷ []) untouched

abbrev pub ranges : List (ℕ × ℕ)
ranges = (100, 107) ∷ (108, 115) ∷ (116, 119) ∷ []

abbrev pub events : List Event
events =
    starts
    ∷ polls 0
    ∷ starts
    ∷ starts
    ∷ polls 0
    ∷ polls 1
    ∷ limits reads
    ∷ limits adds
    ∷ polls 1
    ∷ polls 0
    ∷ []

run_pool-start_pool-IsOrderly_example :
    IsOrderly 2 ranges
      (run_pool disk codec "data" fetch_some (1 ∷ []) 2 events (start_pool config ranges []))
run_pool-start_pool-IsOrderly_example =
    run_pool-start_pool-IsOrderly disk codec "data" fetch_some (1 ∷ []) 2 ranges config [] events

-- One refill lets two of the three chunks be requested.
requests-start_pool_example :
    let pool = start_pool config ranges [] in
    (requests disk codec "data" fetch_some (1 ∷ []) 2 events pool
        + unasked (run_pool disk codec "data" fetch_some (1 ∷ []) 2 events pool)
      ≡ 3)
    × (requests disk codec "data" fetch_some (1 ∷ []) 2 events pool ≤ 2)
unfolding refills RateLimiter.refills
requests-start_pool_example =
    requests-start_pool disk codec "data" fetch_some (1 ∷ []) 2 config ranges [] events

abbrev task : Task
task = record { range = (100, 107); stage = fetching }

abbrev pool : Pool (List Writer)
pool = record {
  pending = (108, 115) ∷ [];
  running = task ∷ [];
  finished = [];
  limiter = RateLimiter.new 1;
  progress = untouched;
}

split_at-pool : split_at 0 pool.running ≡ some ([], task, [])
unfolding split_at
split_at-pool = refl

failed_fetch-conclude_example :
    conclude
      (run_pool disk codec "data" fetch_none
        (1 ∷ [])
        2
        (polls 0 ∷ starts ∷ polls 0 ∷ [])
        pool).progress.failures
    ≢ ok tt
failed_fetch-conclude_example =
    failed_fetch-conclude disk codec "data" fetch_none (1 ∷ []) 2 0 [] [] task "timeout" pool
      (starts ∷ polls 0 ∷ []) split_at-pool refl refl

positive_parallelism : 0 < 2
positive_parallelism = omega arith

run_pool-Drains_example : Drains disk codec "data" fetch_some (1 ∷ []) 2 positive_parallelism pool
unfolding RateLimiter.new
run_pool-Drains_example =
    run_pool-Drains disk codec "data" fetch_some (1 ∷ []) 2 positive_parallelism pool (omega arith)

abbrev pub http : Http
http = record {
  Url = String;
  Name = String;
  Value = String;
  Client = List (String × String);
  parse_url = ok;
  parse_name = ok;
  parse_value = ok;
  build_client = ok;
  parse_address = λ _. ok 1;
}

abbrev pub small : BackfillConfig
small = record config { end_block = 103; parallelism = 1 }

abbrev fetch_placed : List Address → ℕ → ℕ → Exec (List Writer) (List Log)
fetch_placed addresses from to w = (ok (log_at 7 from 1 ∷ log_at 6 to 0 ∷ []), w)

abbrev pub small_events : List Event
small_events = starts ∷ polls 0 ∷ polls 0 ∷ polls 0 ∷ []

small-ok : run http disk codec (λ _. fetch_placed) small small_events [] ≡ some (ok tt)
unfolding run run_chunks prepare build_provider build_http_url finish_run run_pool start_pool step
    start_next poll_task split_at check_config guard conclude join build_auth_headers header_text
    contract_addresses chunk_ranges chunk_loop RateLimiter.acquire RateLimiter.new process_logs
    report_missing write_groups write_group push_failure range_text group_logs add_log add_decoded
    count_missing push_row to_row decode_log decode_as route topic0 event_name fields to_columns
    value_to_string sort_rows insert_row row_le write_parquet_file write_and_close file_schema
    chunk_file_name metadata_columns value_columns values_at base_fields required insert lookup
small-ok = refl

run-IsIngested_example :
    (provider : Provider http) × (addresses : List Address) × (range : ℕ × ℕ) × (prepare http small
      ≡ ok (provider, addresses))
    × (range.0 ≤ 102)
    × (102 ≤ range.1)
    × IsIngested disk codec "data" fetch_placed addresses range
run-IsIngested_example =
    run-IsIngested http disk codec (λ _. fetch_placed) small [] small_events 102 (omega arith)
      (omega arith) (omega arith) small-ok
