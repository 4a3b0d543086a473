-- ===== src/Backfill/File/Sparing.antt =====
-- Writing a file brings no other file into being, whether the write returns or fails.
use polymarket_indexer.Prelude.{
  ℕ, ◌<◌, String, ◌≡◌, ◌≢◌, inl, inr, ◌∙◌, false, List, [], ◌∷◌, ◌++◌, arith, length, Bool-cases,
}
use polymarket_indexer.Prelude.Exec.{Keeps, Keeps-bind, lift}
use polymarket_indexer.Storage.Arrow.{FilePath, Disk}
use polymarket_indexer.Storage.Parquet.Paths.{DiskLaws}
use polymarket_indexer.Backfill.Rows.{EventRow}
use polymarket_indexer.Backfill.File.{
  file_schema, value_columns, metadata_columns, write_and_close, write_parquet_file,
}
use polymarket_indexer.Backfill.File.Writing.{chunk_path}

module _ (D : Disk) (L : DiskLaws D) (p : FilePath) (long : 2 < length p) where
  -- The path is free.
  abbrev IsUnused : D.World → Type 0
  IsUnused w = D.exists p w ≡ false

  create_dir_all-Keeps :
      (base event_type : String) → Keeps IsUnused (D.create_dir_all (base ∷ event_type ∷ []))
  create_dir_all-Keeps base event_type w free =
      let dir = base ∷ event_type ∷ [] in
      elim (Bool-cases (D.exists p (D.create_dir_all dir w).1)) [
        | inr e ↦ e
        | inl e ↦ elim (L.exists-create_dir_all dir p w e) [
          | inl before ↦ cc
          | inr short ↦ let absurd : ⊥ = omega arith in elim absurd [ ]
        ]
      ]

  create_file-Keeps : (path : FilePath) → p ≢ path → Keeps IsUnused (D.create_file path)
  create_file-Keeps path other w free = elim (Bool-cases (D.exists p (D.create_file path w).1)) [
    | inr e ↦ e
    | inl e ↦ elim (L.exists-create_file path p w e) [
      | inl before ↦ cc
      | inr same ↦ elim (other same) [ ]
    ]
  ]

  write_and_close-Keeps :
      (b : D.Batch) (writer : D.Writer) → Keeps IsUnused (write_and_close D b writer)
  unfolding write_and_close
  write_and_close-Keeps b writer w free =
      let (r, (writer', w')) = D.write b (writer, w) in
      Keeps-bind IsUnused (lift r) (λ _. D.close writer') (λ v h. h)
        (λ _ v h. (L.close-IsQuiet writer' v).0 p ∙ h) w' ((L.write-IsQuiet b writer w).0 p ∙ free)

  -- A path that is free stays so, if it has more than two components and is not that of the file.
  pub write_parquet_file-Keeps :
      (output_dir event_type : String) (columns : List String) (rows : List EventRow)
      (chunk_start chunk_end : ℕ)
      → p ≢ chunk_path output_dir event_type chunk_start chunk_end
      → Keeps IsUnused
          (write_parquet_file D output_dir event_type columns rows chunk_start chunk_end)
  unfolding write_parquet_file
  write_parquet_file-Keeps output_dir event_type columns rows chunk_start chunk_end other =
      let schema = file_schema columns in
      Keeps-bind IsUnused (D.create_dir_all (output_dir ∷ event_type ∷ [])) _
        (create_dir_all-Keeps output_dir event_type)
        (λ _.
          Keeps-bind IsUnused
            (D.create_file (chunk_path output_dir event_type chunk_start chunk_end)) _
            (create_file-Keeps _ other)
            (λ file.
              Keeps-bind IsUnused (D.new_writer file schema) _
                (λ w h. (L.new_writer-IsQuiet file schema w).0 p ∙ h)
                (λ writer.
                  Keeps-bind IsUnused (lift (value_columns (length columns) 0 rows)) _ (λ w h. h)
                    (λ values.
                      Keeps-bind IsUnused
                        (lift (D.new_batch schema (metadata_columns event_type rows ++ values)))
                        (λ b. write_and_close D b writer) (λ w h. h)
                        (λ b. write_and_close-Keeps b writer)))))
