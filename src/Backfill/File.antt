-- ===== src/Backfill/File.antt =====
-- `write_parquet_file` of src/backfill.rs: one file for each event type of a chunk.
pub mod Columns
pub mod Names
pub mod Writing
pub mod Sparing
pub mod Failing
pub mod Fitting
use polymarket_indexer.Prelude.{
  ℕ, zero, suc, ◌+◌, ◌-◌, String, ◌<>◌, List, [], ◌∷◌, ◌++◌, map, Option, none, some, get_elem?,
  length, replicate,
}
use polymarket_indexer.Prelude.Decimal.{decimal}
use polymarket_indexer.Prelude.Outcome.{Result, ok, err}
use polymarket_indexer.Prelude.Exec.{Exec, lift, ◌>>=◌, ◌>>◌}
use polymarket_indexer.Prelude.Outcome
use polymarket_indexer.Storage.Arrow.{
  utf8, Schema, Column, string_array, uint64_array, FilePath, Disk,
}
use polymarket_indexer.Storage.Parquet.{required, base_fields}
use polymarket_indexer.Backfill.Rows.{EventRow}

-- The four metadata fields, and a text field for each column.
unfoldable pub file_schema : List String → Schema
unfolding base_fields required
file_schema columns = base_fields ++ map (λ column. required column utf8) columns

-- "{chunk_start}-{chunk_end}.parquet"
unfoldable pub chunk_file_name : ℕ → ℕ → String
unfolding decimal
chunk_file_name chunk_start chunk_end =
    decimal chunk_start <> "-" <> decimal chunk_end <> ".parquet"

-- `row.values[col_index]` for each row; an index out of bounds panics.
unfoldable pub values_at : ℕ → List EventRow → Result (List String)
values_at i [] = ok []
values_at i (row ∷ rows) = elim (get_elem? row.values i) [
  | none ↦ err "index out of bounds"
  | some value ↦ Outcome.◌>>=◌ (values_at i rows) (λ values. ok (value ∷ values))
]

-- The loop over `col_index`, from `i`, with `n` columns left.
unfoldable pub value_columns : ℕ → ℕ → List EventRow → Result (List Column)
unfolding values_at
value_columns zero i rows = ok []
value_columns (suc n) i rows =
    Outcome.◌>>=◌ (values_at i rows)
      λ values. Outcome.◌>>=◌ (value_columns n (i + 1) rows) λ rest. ok (string_array values ∷ rest)

unfoldable pub metadata_columns : String → List EventRow → List Column
metadata_columns event_type rows =
    string_array (replicate (length rows) event_type)
    ∷ uint64_array (map (λ (row : EventRow). row.block_number) rows)
    ∷ string_array (map (λ (row : EventRow). row.tx_hash) rows)
    ∷ uint64_array (map (λ (row : EventRow). row.log_index) rows)
    ∷ []

module _ (D : Disk) where
  open D use {World, Writer, Batch}

  -- `writer.write(&batch)?; writer.close()?`
  unfoldable pub write_and_close : Batch → Writer → Exec World (Unit {0})
  write_and_close batch writer w =
      let (r, (writer', w')) = D.write batch (writer, w) in (do lift r; D.close writer') w'

  unfoldable pub write_parquet_file :
      String → String → List String → List EventRow → ℕ → ℕ → Exec World (Unit {0})
  write_parquet_file output_dir event_type columns rows chunk_start chunk_end = do
    let schema = file_schema columns
    let event_dir = output_dir ∷ event_type ∷ []
    D.create_dir_all event_dir
    file ← D.create_file (event_dir ++ chunk_file_name chunk_start chunk_end ∷ [])
    writer ← D.new_writer file schema
    values ← lift (value_columns (length columns) 0 rows)
    batch ← lift (D.new_batch schema (metadata_columns event_type rows ++ values))
    write_and_close batch writer
