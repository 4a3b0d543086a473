-- ===== src/Examples/Chunks.antt =====
-- Chunks, rows and the rate limiter at concrete data.
use mathlib.Core.List.{Perm}
use polymarket_indexer.Prelude.{ℕ, ◌≡◌, refl, some, List, [], ◌∷◌, arith}
use polymarket_indexer.Backfill.Chunks.{chunk_ranges}
use polymarket_indexer.Backfill.Chunks.Cover.{
  Tiles, covering, covering-chunk_ranges, chunk_ranges-Tiles,
}
use polymarket_indexer.Backfill.Rows.{EventRow, sort_rows}
use polymarket_indexer.Backfill.Rows.Order.{IsSorted, at_position, sort_rows_stable}

chunk_ranges_remainder : chunk_ranges 100 111 5 ≡ some ((100, 104) ∷ (105, 109) ∷ (110, 111) ∷ [])
unfolding chunk_ranges
chunk_ranges_remainder = refl

covering-chunk_ranges_example :
    (ranges : List (ℕ × ℕ)) × (chunk_ranges 100 119 8 ≡ some ranges) × (covering 113 ranges ≡ 1)
covering-chunk_ranges_example =
    covering-chunk_ranges 113 100 119 8 (omega arith) (omega arith) (omega arith)

chunk_ranges-Tiles_example :
    (ranges : List (ℕ × ℕ)) × (chunk_ranges 100 119 8 ≡ some ranges) × Tiles 100 119 8 ranges
chunk_ranges-Tiles_example = chunk_ranges-Tiles 100 119 8 (omega arith) (omega arith) (omega arith)

abbrev row : ℕ → ℕ → EventRow
row block index = record { block_number = block; tx_hash = "5"; log_index = index; values = [] }

abbrev rows : List EventRow
rows = row 9 1 ∷ row 7 2 ∷ row 9 0 ∷ row 7 2 ∷ []

sort_rows_stable_example :
    IsSorted (sort_rows rows)
    × Perm (sort_rows rows) rows
    × ((b i : ℕ) → at_position b i (sort_rows rows) ≡ at_position b i rows)
sort_rows_stable_example = sort_rows_stable rows
