-- ===== src/Examples/Decoding.antt =====
-- Decoding and grouping with the codec of the fixtures.
use polymarket_indexer.Prelude.{
  ◌+◌, ◌≡◌, ◌≢◌, ◌↔◌, refl, some, none, List, [], ◌∷◌, arith, length, All,
}
use polymarket_indexer.Prelude.Outcome.{ok}
use polymarket_indexer.Contracts.{EventKind, order_cancelled}
use polymarket_indexer.Decode.{Log, topic0, decode_as, decode_log}
use polymarket_indexer.Decode.Columns.{IsOfKind}
use polymarket_indexer.Decode.Dispatch.{
  decode_log-eq-decode_as, decode_log-none_iff, decode_log-IsOfKind,
}
use polymarket_indexer.Storage.Arrow.{Column}
use polymarket_indexer.Backfill.Rows.{EventRow}
use polymarket_indexer.Backfill.Group.{no_rows, group_logs}
use polymarket_indexer.Backfill.Group.Contents.{rows_for, rows_of, rows_for-group_logs}
use polymarket_indexer.Backfill.Group.Shape.{IsShaped, group_logs-IsShaped}
use polymarket_indexer.Backfill.Group.Counting.{passed_over, total_rows, accounted-group_logs}
use polymarket_indexer.Backfill.File.{value_columns}
use polymarket_indexer.Backfill.File.Columns.{length_column, value_columns_total}
use polymarket_indexer.Examples.Fixtures.{
  codec, hash_of, log_at, unplaced, cancelled, decode_log-cancelled, codec-HasDistinctHashes,
}

topic0-log_at : topic0 (log_at 7 3 0) ≡ some 7
unfolding topic0
topic0-log_at = refl

decode_log-eq-decode_as_example :
    decode_log codec (log_at 7 3 0) ≡ decode_as codec order_cancelled (log_at 7 3 0)
decode_log-eq-decode_as_example =
    decode_log-eq-decode_as codec codec-HasDistinctHashes order_cancelled (log_at 7 3 0)
      topic0-log_at

decode_log-none_iff_example :
    (decode_log codec (log_at 99 3 0) ≡ ok none)
    ↔ ((k : EventKind) → topic0 (log_at 99 3 0) ≢ some (hash_of k))
decode_log-none_iff_example = decode_log-none_iff codec (log_at 99 3 0)

decode_log-IsOfKind_example :
    (k : EventKind) × (topic0 (log_at 7 3 0) ≡ some (hash_of k)) × IsOfKind k (cancelled 3)
decode_log-IsOfKind_example =
    decode_log-IsOfKind codec (log_at 7 3 0) (cancelled 3) (decode_log-cancelled 3 0)

abbrev logs : List Log
logs = log_at 7 3 1 ∷ unplaced ∷ log_at 6 3 0 ∷ log_at 99 4 0 ∷ log_at 7 2 0 ∷ log_at 1 5 5 ∷ []

rows_for-group_logs_example :
    rows_for "OrderCancelled" (group_logs codec logs no_rows).by_event
    ≡ rows_of codec "OrderCancelled" logs
rows_for-group_logs_example = rows_for-group_logs codec "OrderCancelled" logs

group_logs-IsShaped_example : IsShaped (group_logs codec logs no_rows).by_event
group_logs-IsShaped_example = group_logs-IsShaped codec logs

accounted-group_logs_example :
    total_rows (group_logs codec logs no_rows).by_event
      + (group_logs codec logs no_rows).missing_metadata_count
      + passed_over codec logs
    ≡ 6
accounted-group_logs_example = accounted-group_logs codec logs (omega arith)

abbrev two_rows : List EventRow
two_rows =
    record { block_number = 3; tx_hash = "5"; log_index = 0; values = "a" ∷ "b" ∷ [] }
    ∷ record { block_number = 3; tx_hash = "5"; log_index = 1; values = "c" ∷ "d" ∷ [] }
    ∷ []

value_columns_total_example :
    (columns : List Column) × (value_columns 2 0 two_rows ≡ ok columns)
    × (length columns ≡ 2)
    × All (λ c. length_column c ≡ 2) columns
value_columns_total_example = value_columns_total 2 0 two_rows 2 (refl, (refl, tt)) (omega arith)
