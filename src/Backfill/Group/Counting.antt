-- ===== src/Backfill/Group/Counting.antt =====
-- Each log of a chunk becomes one row, or is counted as missing metadata, or is passed over.
use polymarket_indexer.Prelude.{
  ℕ, ◌+◌, ◌<◌, String, ◌≡◌, List, [], ◌∷◌, ◌++◌, map, none, some, arith, Option-cases, inl, inr,
  length, length-append, u64_mod,
}
use polymarket_indexer.Prelude.Dict.{Dict, lookup, insert}
use polymarket_indexer.Prelude.Outcome.{ok, err, Result-cases}
use polymarket_indexer.Decode.{Log, DecodedEvent, Codec, decode_log}
use polymarket_indexer.Backfill.Rows.{EventRow}
use polymarket_indexer.Backfill.Group.{
  Grouping, no_rows, count_missing, push_row, to_row, add_decoded, add_log, group_logs,
}

pub total_rows : Dict (List String × List EventRow) → ℕ
total_rows [] = 0
total_rows ((name, (columns, rows)) ∷ m) = length rows + total_rows m

total_rows-insert_new :
    (name : String) (columns : List String) (row : EventRow)
    (m : Dict (List String × List EventRow))
    → lookup name m ≡ none
    → total_rows (insert name (columns, row ∷ []) m) ≡ total_rows m + 1
unfolding total_rows insert lookup
total_rows-insert_new name columns row [] h = omega arith
total_rows-insert_new name columns row ((k, e) ∷ m) h =
    ground (arith, total_rows-insert_new name columns row m)

total_rows-insert_old :
    (name : String) (columns : List String) (rows : List EventRow) (row : EventRow)
    (m : Dict (List String × List EventRow))
    → lookup name m ≡ some (columns, rows)
    → total_rows (insert name (columns, rows ++ row ∷ []) m) ≡ total_rows m + 1
unfolding total_rows insert lookup
total_rows-insert_old name columns rows row [] h = cc
total_rows-insert_old name columns rows row ((k, e) ∷ m) h =
    ground (arith, total_rows-insert_old name columns rows row m, length-append rows (row ∷ []))

total_rows-push_row :
    (name : String) (columns : List String) (row : EventRow)
    (m : Dict (List String × List EventRow))
    → total_rows (push_row name columns row m) ≡ total_rows m + 1
unfolding push_row
total_rows-push_row name columns row m = elim (Option-cases (lookup name m)) [
  | inl e ↦ rw (e, push_row) (total_rows-insert_new name columns row m e)
  | inr ((cols, rows), e) ↦ rw (e, push_row) (total_rows-insert_old name cols rows row m e)
]

module _ (c : Codec) where
  passed : Log → ℕ
  passed log = elim (decode_log c log) [ ok (some d) ↦ 0 | ok none ↦ 1 | err e ↦ 1 ]

  -- How many logs are of no known event, or do not decode.
  pub passed_over : List Log → ℕ
  unfolding passed
  passed_over [] = 0
  passed_over (log ∷ logs) = passed log + passed_over logs

  accounted : Grouping → ℕ
  accounted g = total_rows g.by_event + g.missing_metadata_count

  accounted-add_decoded :
      (d : DecodedEvent) (log : Log) (g : Grouping)
      → accounted g + 1 < u64_mod
      → accounted (add_decoded c d log g) ≡ accounted g + 1
  unfolding add_decoded count_missing accounted
  accounted-add_decoded d log g h = elim (Option-cases log.block_number) [
    | inl e ↦ ground arith
    | inr (b, eb) ↦ elim (Option-cases log.transaction_hash) [
      | inl e ↦ ground arith
      | inr (t, et) ↦ elim (Option-cases log.log_index) [
        | inl e ↦ ground arith
        | inr (i, ei) ↦ ground (
          arith,
          total_rows-push_row d.event_type (map (λ ((n, _) : String × String). n) d.columns)
              (to_row c b t i d) g.by_event,
        )
      ]
    ]
  ]

  accounted-add_log :
      (log : Log) (g : Grouping)
      → accounted g + 1 < u64_mod
      → accounted (add_log c log g) + passed log ≡ accounted g + 1
  unfolding add_log passed
  accounted-add_log log g h = elim (Result-cases (decode_log c log)) [
    | inl (none, e) ↦ ground arith
    | inl (some d, e) ↦ ground (arith, accounted-add_decoded d log g)
    | inr (message, e) ↦ ground arith
  ]

  accounted-group_logs_onto :
      (logs : List Log) (g : Grouping)
      → accounted g + length logs < u64_mod
      → accounted (group_logs c logs g) + passed_over logs ≡ accounted g + length logs
  unfolding group_logs passed_over
  accounted-group_logs_onto [] g h = omega arith
  accounted-group_logs_onto (log ∷ logs) g h =
      let e = accounted-add_log log g (omega arith) in
      omega (arith, e, accounted-group_logs_onto logs (add_log c log g) (omega (arith, e)))

  -- No log is lost or counted twice: after the loop, the rows, the logs counted as missing metadata,
  -- and the logs that are of no known event or do not decode, are together the logs.
  pub accounted-group_logs :
      (logs : List Log)
      → length logs < u64_mod
      → let g = group_logs c logs no_rows in
        total_rows g.by_event + g.missing_metadata_count + passed_over logs ≡ length logs
  unfolding accounted total_rows
  accounted-group_logs logs h = omega (arith, accounted-group_logs_onto logs no_rows (omega arith))
