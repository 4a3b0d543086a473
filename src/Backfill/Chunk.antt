-- ===== src/Backfill/Chunk.antt =====
-- The work on one chunk in src/backfill.rs: fetch, group, sort, write, and record what failed.
pub mod Outcomes
pub mod Files
pub mod Described
use polymarket_indexer.Prelude.{ℕ, String, ◌<>◌, List, [], ◌∷◌, ◌++◌, ltb, if◌then◌else◌}
use polymarket_indexer.Prelude.Decimal.{decimal}
use polymarket_indexer.Prelude.Dict.{Dict}
use polymarket_indexer.Prelude.Outcome.{ok, err}
use polymarket_indexer.Prelude.Exec.{Exec}
use polymarket_indexer.Contracts.{Address}
use polymarket_indexer.Storage.Arrow.{Disk}
use polymarket_indexer.Decode.{Log, Codec}
use polymarket_indexer.Backfill.Rows.{EventRow, sort_rows}
use polymarket_indexer.Backfill.Group.{Grouping, no_rows, group_logs}
use polymarket_indexer.Backfill.File.{write_parquet_file}

-- The failures that have been pushed so far, and the world.
pub record Progress (World : Type 0) : Type 0 where
  pub failures : List String
  pub world : World

-- "{chunk_start}-{chunk_end}"
unfoldable pub range_text : ℕ → ℕ → String
unfolding decimal
range_text chunk_start chunk_end = decimal chunk_start <> "-" <> decimal chunk_end

module _ (D : Disk) (c : Codec) (output_dir : String) (chunk_start chunk_end : ℕ) where
  open D use {World}

  unfoldable pub push_failure : String → Progress World → Progress World
  push_failure message p = record p { failures = p.failures ++ message ∷ [] }

  -- One round of the loop over `by_event`.
  unfoldable pub write_group :
      String → List String → List EventRow → Progress World → Progress World
  write_group event_type columns rows p =
      let (r, w) =
        write_parquet_file D output_dir event_type columns (sort_rows rows) chunk_start chunk_end
          p.world in
      let q : Progress World = record p { world = w } in
      elim r [
        | ok _ ↦ q
        | err error ↦
            push_failure
              ("write failed for "
                <> range_text chunk_start chunk_end
                <> "/"
                <> event_type
                <> ": "
                <> error)
              q
      ]

  unfoldable pub write_groups : Dict (List String × List EventRow) → Progress World → Progress World
  write_groups [] p = p
  write_groups ((event_type, (columns, rows)) ∷ m) p =
      write_groups m (write_group event_type columns rows p)

  unfoldable pub report_missing : ℕ → Progress World → Progress World
  report_missing n p =
      if ltb 0 n
      then push_failure
          ("metadata missing for "
            <> decimal n
            <> " decoded logs in "
            <> range_text chunk_start chunk_end)
          p
      else p

  -- What follows a fetch that returned.
  unfoldable pub process_logs : List Log → Progress World → Progress World
  process_logs logs p =
      let g : Grouping = group_logs c logs no_rows in
      report_missing g.missing_metadata_count (write_groups g.by_event p)

  -- What follows a fetch that failed.
  unfoldable pub fetch_failed : String → Progress World → Progress World
  fetch_failed error =
      push_failure ("fetch failed for " <> range_text chunk_start chunk_end <> ": " <> error)

  -- A chunk from its fetch on. `get_logs` is the provider's, for the addresses of the filter.
  unfoldable pub process_chunk :
      (List Address → ℕ → ℕ → Exec World (List Log))
      → List Address
      → Progress World
      → Progress World
  process_chunk get_logs addresses p =
      let (r, w) = get_logs addresses chunk_start chunk_end p.world in
      let q : Progress World = record p { world = w } in
      elim r [ ok logs ↦ process_logs logs q | err error ↦ fetch_failed error q ]
