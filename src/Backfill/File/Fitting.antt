-- ===== src/Backfill/File/Fitting.antt =====
-- The columns of a file fit its schema, so a write on a disk whose calls return does return.
use polymarket_indexer.Prelude.{
  ℕ, zero, suc, ◌+◌, ◌≤◌, String, ◌≡◌, refl, ap, ◌∙◌, List, [], ◌∷◌, ◌++◌, arith, length,
  length-map, replicate,
}
use polymarket_indexer.Prelude.Outcome.{ok}
use polymarket_indexer.Prelude.Exec.{lift, bind-of-ok}
use polymarket_indexer.Storage.Arrow.{Column, string_array, Disk}
use polymarket_indexer.Storage.Parquet.{required, base_fields}
use polymarket_indexer.Storage.Reliable.{Fits, Fits-append, text_fields, IsReliable}
use polymarket_indexer.Backfill.Rows.{EventRow, sort_rows}
use polymarket_indexer.Backfill.Rows.Order.{All-insert_row}
use polymarket_indexer.Backfill.File.{
  file_schema, chunk_file_name, value_columns, metadata_columns, write_and_close,
  write_parquet_file,
}
use polymarket_indexer.Backfill.File.Columns.{HasWidth, values_at_total}

value_columns-Fits :
    (names : List String) (i : ℕ) (rows : List EventRow) (width : ℕ)
    → HasWidth width rows
    → i + length names ≤ width
    → (columns : List Column) × (value_columns (length names) i rows ≡ ok columns)
      × Fits (length rows) (text_fields names) columns
unfolding value_columns required
value_columns-Fits [] i rows width h le = ([], refl, tt)
value_columns-Fits (name ∷ names) i rows width h le =
    let (values, e, l) = values_at_total width i rows h (omega arith) in
    let (rest, e', fits) = value_columns-Fits names (i + 1) rows width h (omega arith) in
    (string_array values ∷ rest, rw (e, e') refl, (refl, l, fits))

length-replicate : {A : Type 0} (n : ℕ) (a : A) → length (replicate n a) ≡ n
length-replicate zero a = refl
length-replicate (suc n) a = omega (arith, length-replicate n a)

metadata_columns-Fits :
    (event_type : String) (rows : List EventRow)
    → Fits (length rows) base_fields (metadata_columns event_type rows)
unfolding metadata_columns base_fields required
metadata_columns-Fits event_type rows =
    let n = length rows in
    let blocks = length-map (λ (row : EventRow). row.block_number) rows in
    let hashes = length-map (λ (row : EventRow). row.tx_hash) rows in
    let indices = length-map (λ (row : EventRow). row.log_index) rows in
    (refl, length-replicate n event_type, (refl, blocks, (refl, hashes, (refl, indices, tt))))

pub sort_rows-HasWidth :
    (n : ℕ) (rows : List EventRow) → HasWidth n rows → HasWidth n (sort_rows rows)
unfolding sort_rows
sort_rows-HasWidth n [] h = tt
sort_rows-HasWidth n (row ∷ rows) h =
    All-insert_row (λ (r : EventRow). length r.values ≡ n) row (sort_rows rows) h.0
      (sort_rows-HasWidth n rows h.1)

module _ (D : Disk) (reliable : IsReliable D) where
  open reliable use {
    create_dir_all-ok, create_file-ok, new_writer-ok, new_batch-ok, write-ok, close-ok,
  }

  write_and_close-ok :
      (batch : D.Batch) (writer : D.Writer) (w : D.World)
      → (write_and_close D batch writer w).0 ≡ ok tt
  unfolding write_and_close
  write_and_close-ok batch writer w =
      let (r, (writer', w')) = D.write batch (writer, w) in
      rw (write-ok batch writer w) (close-ok writer' w')

  -- On such a disk, the rows of an event type with as many values as there are columns are written.
  pub write_parquet_file-ok :
      (output_dir event_type : String) (columns : List String) (rows : List EventRow)
      (chunk_start chunk_end : ℕ) (w : D.World)
      → HasWidth (length columns) rows
      → (write_parquet_file D output_dir event_type columns rows chunk_start chunk_end w).0 ≡ ok tt
  unfolding write_parquet_file file_schema
  write_parquet_file-ok output_dir event_type columns rows chunk_start chunk_end w h =
      let schema = base_fields ++ text_fields columns in
      let dir = output_dir ∷ event_type ∷ [] in
      let path = dir ++ chunk_file_name chunk_start chunk_end ∷ [] in
      let w₁ = (D.create_dir_all dir w).1 in
      let (file, created) = create_file-ok path w₁ in
      let w₂ = (D.create_file path w₁).1 in
      let (writer, opened) = new_writer-ok file schema w₂ in
      let w₃ = (D.new_writer file schema w₂).1 in
      let (values, valued, fits) =
        value_columns-Fits columns 0 rows (length columns) h (omega arith) in
      let (batch, made) =
        new_batch-ok (length rows) schema (metadata_columns event_type rows ++ values) (
          Fits-append (length rows) base_fields (text_fields columns)
            (metadata_columns event_type rows) values (metadata_columns-Fits event_type rows)
            fits) in
      ap (λ x. x.0)
        (bind-of-ok (D.create_dir_all dir) _ w (create_dir_all-ok dir w)
          ∙ bind-of-ok (D.create_file path) _ w₁ created
          ∙ bind-of-ok (D.new_writer file schema) _ w₂ opened
          ∙ bind-of-ok (lift (value_columns (length columns) 0 rows)) _ w₃ valued
          ∙ bind-of-ok (lift (D.new_batch schema (metadata_columns event_type rows ++ values)))
              (λ batch. write_and_close D batch writer) w₃ made)
      ∙ write_and_close-ok batch writer w₃
