-- ===== src/Examples/Files.antt =====
-- The files of a backfill at concrete data.
use polymarket_indexer.Prelude.{
  ℕ, Bool-cases, inl, inr, str_eq, String, ◌≡◌, ◌⊎◌, refl, false, some, none, List, [], ◌∷◌, arith,
  All,
}
use polymarket_indexer.Prelude.Outcome.{ok, err}
use polymarket_indexer.Prelude.Exec.{Exec}
use polymarket_indexer.Prelude.Dict.{insert, lookup}
use polymarket_indexer.Contracts.{Address, contract_addresses}
use polymarket_indexer.Decode.{
  Log, event_name, fields, route, to_columns, topic0, value_to_string, decode_as, decode_log,
}
use polymarket_indexer.Storage.Parquet.{base_fields, required}
use polymarket_indexer.Backfill.Auth.{build_auth_headers, header_text}
use polymarket_indexer.Backfill.Chunks.{chunk_loop, chunk_ranges}
use polymarket_indexer.Backfill.File.{
  chunk_file_name, file_schema, metadata_columns, value_columns, values_at, write_and_close,
  write_parquet_file,
}
use polymarket_indexer.Backfill.File.Writing.{chunk_path, Wrote}
use polymarket_indexer.Backfill.File.Failing.{write_parquet_file-cases}
use polymarket_indexer.Backfill.Group.{
  add_decoded, count_missing, push_row, to_row, add_log, group_logs,
}
use polymarket_indexer.Backfill.Rows.{EventRow, insert_row, row_le, sort_rows}
use polymarket_indexer.Backfill.Chunk.{
  push_failure, range_text, write_group, write_groups, process_logs, report_missing,
}
use polymarket_indexer.Backfill.Provider.{Provider, build_http_url, build_provider}
use polymarket_indexer.Backfill.Run.{
  Event, check_config, conclude, split_at, start_pool, run_pool, prepare, run, run_chunks,
  finish_run, step, start_next, poll_task, guard, join,
}
use polymarket_indexer.Backfill.RateLimiter
use polymarket_indexer.Backfill.Run.Success.{IsAnswering}
use polymarket_indexer.Backfill.Run.Success.Whole.{run_succeeds}
use polymarket_indexer.Backfill.Run.Files.{ProviderLaws, AreFilesOf, Splits}
use polymarket_indexer.Backfill.Run.Files.Whole.{end_of, HoldsRun, end_of-Splits}
use polymarket_indexer.Commands.{BackfillArgs, backfill_main, backfill_config}
use polymarket_indexer.Commands.Files.{backfill_main-HoldsRun}
use polymarket_indexer.Examples.Fixtures.{codec, log_at, Writer}
use polymarket_indexer.Examples.Services.{Files, file_system, disk_laws, file_system-IsReliable}
use polymarket_indexer.Examples.Pool.{http, config, small, small_events, events}

-- Logs of two kinds, the later one first.
abbrev fetch : Provider http → List Address → ℕ → ℕ → Exec Files (List Log)
fetch provider addresses from to w =
    (ok (log_at 7 from 1 ∷ log_at 6 to 0 ∷ log_at 7 from 0 ∷ []), w)

fetch-ProviderLaws :
    (provider : Provider http) → ProviderLaws file_system disk_laws (fetch provider)
unfolding disk_laws
fetch-ProviderLaws provider = record {
  closed-get_logs = λ addresses from to w. refl;
  exists-get_logs = λ addresses from to w p. refl;
}

abbrev old_file : Writer
old_file = ("data" ∷ "OrderCancelled" ∷ "0-99.parquet" ∷ [], [])

-- A file of an earlier run is there.
abbrev start : Files
start = (old_file.0 ∷ [], old_file ∷ [])

run-ok : run http file_system codec fetch small small_events start ≡ some (ok tt)
unfolding run run_chunks prepare build_provider build_http_url finish_run run_pool start_pool step
    start_next poll_task split_at check_config guard conclude join build_auth_headers header_text
    contract_addresses chunk_ranges chunk_loop RateLimiter.acquire RateLimiter.new process_logs
    report_missing write_groups write_group push_failure range_text group_logs add_log add_decoded
    count_missing push_row to_row decode_log decode_as route topic0 event_name fields to_columns
    value_to_string sort_rows insert_row row_le write_parquet_file write_and_close file_schema
    chunk_file_name metadata_columns value_columns values_at base_fields required insert lookup
run-ok = refl

small-ranges : chunk_ranges 100 103 8 ≡ some ((100, 103) ∷ [])
unfolding chunk_ranges
small-ranges = refl

-- No name of a file of these runs is that of the earlier file.
start-free :
    (range : ℕ × ℕ)
    → str_eq (chunk_file_name range.0 range.1) "0-99.parquet" ≡ false
    → (event_type : String)
    → file_system.exists (chunk_path "data" event_type range.0 range.1) start ≡ false
start-free range other event_type = elim (Bool-cases (str_eq event_type "OrderCancelled")) [
  | inl same ↦ rw (same, other) refl
  | inr differs ↦ rw differs refl
]

free_100 : str_eq (chunk_file_name 100 103) "0-99.parquet" ≡ false
unfolding chunk_file_name
free_100 = refl

abbrev args : BackfillArgs
args = record {
  start_block = 100;
  end_block = 103;
  chunk_size_by_block_number = 8;
  parallelism = 1;
  rate_limit_per_second = 1;
  rpc_http_url = "http://localhost";
  rpc_http_key = none;
  rpc_http_auth_header = "Authorization";
  rpc_http_auth_scheme = "Bearer";
  output_dir = "data";
}

main-ok : backfill_main http file_system codec fetch args small_events start ≡ some (ok tt)
unfolding backfill_main backfill_config
main-ok = run-ok

backfill_main-HoldsRun_example :
    (provider : Provider http) × (addresses : List Address) × (prepare http small
      ≡ ok (provider, addresses))
    × HoldsRun file_system disk_laws codec
        (fetch provider)
        (fetch-ProviderLaws provider)
        small
        start
        small_events
        addresses
        ((100, 103) ∷ [])
unfolding backfill_config
backfill_main-HoldsRun_example =
    backfill_main-HoldsRun http file_system disk_laws codec fetch fetch-ProviderLaws args
      small_events start ((100, 103) ∷ []) small-ranges (omega arith)
      (start-free (100, 103) free_100, tt) main-ok

abbrev chunks : List (ℕ × ℕ)
chunks = (100, 107) ∷ (108, 115) ∷ (116, 119) ∷ []

config-ranges : chunk_ranges 100 119 8 ≡ some chunks
unfolding chunk_ranges
config-ranges = refl

chunks-free :
    All
      (λ (range : ℕ × ℕ).
        (event_type : String)
        → file_system.exists (chunk_path "data" event_type range.0 range.1) start ≡ false)
      chunks
unfolding chunk_file_name
chunks-free =
    (start-free (100, 107) refl, (start-free (108, 115) refl, (start-free (116, 119) refl, tt)))

abbrev addresses : List Address
addresses = 1 ∷ 1 ∷ 1 ∷ []

abbrev client : Provider http
client = record { client = []; url = "http://localhost" }

prepared : prepare http config ≡ ok (client, addresses)
unfolding prepare build_provider build_http_url check_config guard build_auth_headers header_text
    contract_addresses
prepared = refl

-- Two of three chunks have begun, and the run stops there.
end_of-Splits_example :
    let p =
      end_of file_system disk_laws codec
        (fetch client)
        (fetch-ProviderLaws client)
        config
        start
        events
        addresses
        chunks in
    (files : List Writer) × Splits file_system disk_laws codec "data"
      (fetch client)
      addresses
      (AreFilesOf file_system disk_laws codec "data" (fetch client) addresses)
      p.finished
      files
    × (p.progress.world.1 ≡ old_file ∷ files)
unfolding disk_laws
end_of-Splits_example =
    end_of-Splits http file_system disk_laws codec fetch fetch-ProviderLaws config start events
      chunks config-ranges (omega arith) chunks-free client addresses prepared

rows : List EventRow
rows =
    record { block_number = 7; tx_hash = "5"; log_index = 0; values = "9" ∷ [] }
    ∷ record { block_number = 8; tx_hash = "5"; log_index = 3; values = "4" ∷ [] }
    ∷ []

write_parquet_file-cases_example :
    (((write_parquet_file file_system "data" "OrderCancelled"
          ("order_hash" ∷ [])
          rows
          100
          103
          start).0
        ≡ ok tt)
      × Wrote file_system disk_laws "data" "OrderCancelled" ("order_hash" ∷ []) rows 100 103 start)
    ⊎ ((e : String) × ((write_parquet_file file_system "data" "OrderCancelled"
            ("order_hash" ∷ [])
            rows
            100
            103
            start).0
          ≡ err e)
        × ((write_parquet_file file_system "data" "OrderCancelled"
              ("order_hash" ∷ [])
              rows
              100
              103
              start).1.1
            ≡ old_file ∷ []))
unfolding disk_laws
write_parquet_file-cases_example =
    write_parquet_file-cases file_system disk_laws "data" "OrderCancelled" ("order_hash" ∷ []) rows
      100 103 start (start-free (100, 103) free_100 "OrderCancelled")

fetch-IsAnswering : IsAnswering codec (fetch client)
unfolding group_logs add_log add_decoded count_missing decode_log decode_as route topic0 event_name
    fields to_columns value_to_string
fetch-IsAnswering = record {
  answers =
      λ addresses from to w. (log_at 7 from 1 ∷ log_at 6 to 0 ∷ log_at 7 from 0 ∷ [], refl, refl);
}

run_succeeds_example :
    ((es : List Event)
      → (run http file_system codec fetch config es start ≡ none)
        ⊎ (run http file_system codec fetch config es start ≡ some (ok tt)))
    × (es : List Event) × (run http file_system codec fetch config es start ≡ some (ok tt))
run_succeeds_example =
    run_succeeds http file_system file_system-IsReliable codec fetch config start client addresses
      prepared fetch-IsAnswering (omega arith)
