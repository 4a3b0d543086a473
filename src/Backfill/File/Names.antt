-- ===== src/Backfill/File/Names.antt =====
-- The names of the files of a backfill.
use polymarket_indexer.Prelude.{ℕ, ◌≡◌, refl}
use polymarket_indexer.Prelude.Decimal.Reading.{decimal-injective}
use polymarket_indexer.Backfill.File.{chunk_file_name}

-- The files of two chunks have one name only if the chunks have the same first and last block.
pub chunk_file_name-injective :
    (chunk_start chunk_end chunk_start' chunk_end' : ℕ)
    → chunk_file_name chunk_start chunk_end ≡ chunk_file_name chunk_start' chunk_end'
    → (chunk_start ≡ chunk_start') × (chunk_end ≡ chunk_end')
unfolding chunk_file_name
chunk_file_name-injective chunk_start chunk_end chunk_start' chunk_end' =
    decimal-injective "-" "." "" "parquet" refl refl
