-- ===== src/Backfill/File/Writing.antt =====
-- What `write_parquet_file` leaves on the disk: one more complete file with one batch, or none.
use polymarket_indexer.Prelude.{
  ℕ, String, ◌≡◌, inl, inr, refl, ap, ◌∙◌, false, List, [], ◌∷◌, ◌++◌, arith, length, Bool-cases,
}
use polymarket_indexer.Prelude.Outcome.{ok}
use polymarket_indexer.Prelude.Exec.{Exec, lift, bind-eq-ok}
use polymarket_indexer.Storage.Arrow.{FilePath, Column, Disk}
use polymarket_indexer.Storage.Parquet.Paths.{DiskLaws}
use polymarket_indexer.Backfill.Rows.{EventRow}
use polymarket_indexer.Backfill.File.{
  file_schema, chunk_file_name, value_columns, metadata_columns, write_and_close,
  write_parquet_file,
}

-- Where the rows of an event type go, for a chunk.
abbrev pub chunk_path : String → String → ℕ → ℕ → FilePath
chunk_path output_dir event_type chunk_start chunk_end =
    (output_dir ∷ event_type ∷ []) ++ chunk_file_name chunk_start chunk_end ∷ []

module _ (D : Disk) (L : DiskLaws D) where
  -- The writer was opened on a new file at the path, with the schema of the columns, and it took
  -- one batch: the metadata and the values of the rows.
  pub record HoldsRows (path : FilePath) (event_type : String) (columns : List String)
      (rows : List EventRow) (writer : D.Writer) : Type 0 where
    pub file : D.File
    pub created : (w : D.World) × ((D.create_file path w).0 ≡ ok file)
    pub values : List Column
    pub valued : value_columns (length columns) 0 rows ≡ ok values
    pub batch : D.Batch
    pub made :
        D.new_batch (file_schema columns) (metadata_columns event_type rows ++ values) ≡ ok batch
    pub opened : D.Writer
    pub fresh : (w : D.World) × ((D.new_writer file (file_schema columns) w).0 ≡ ok opened)
    pub written : (w : D.World) × (writer ≡ (D.write batch (opened, w)).1.0)
    pub contents : L.writing.batches writer ≡ batch ∷ []

  module _ (output_dir event_type : String) (columns : List String) (rows : List EventRow)
      (chunk_start chunk_end : ℕ) where
    abbrev path : FilePath
    path = chunk_path output_dir event_type chunk_start chunk_end

    abbrev dir : FilePath
    dir = output_dir ∷ event_type ∷ []

    abbrev writing : Exec D.World (Unit {0})
    writing = write_parquet_file D output_dir event_type columns rows chunk_start chunk_end

    pub free-create_dir_all :
        (w : D.World) → D.exists path w ≡ false → D.exists path (D.create_dir_all dir w).1 ≡ false
    free-create_dir_all w free = elim (Bool-cases (D.exists path (D.create_dir_all dir w).1)) [
      | inr e ↦ e
      | inl e ↦ elim (L.exists-create_dir_all dir path w e) [
        | inl before ↦ cc
        | inr short ↦ let absurd : ⊥ = omega arith in elim absurd [ ]
      ]
    ]

    write_and_close-ok :
        (b : D.Batch) (writer : D.Writer) (w : D.World)
        → (write_and_close D b writer w).0 ≡ ok tt
        → let (r, (writer', w')) = D.write b (writer, w) in
          (r ≡ ok tt)
          × ((D.close writer' w').0 ≡ ok tt)
          × ((write_and_close D b writer w).1 ≡ (D.close writer' w').1)
    unfolding write_and_close
    write_and_close-ok b writer w h = ground arith

    -- What a write that returned has done.
    pub record Wrote (w : D.World) : Type 0 where
      pub writer : D.Writer
      pub rows_in_it : HoldsRows path event_type columns rows writer
      pub grows : L.closing.closed (writing w).1 ≡ L.closing.closed w ++ writer ∷ []

    -- A write that returns has added one complete file.
    pub write_parquet_file-Wrote :
        (w : D.World) → D.exists path w ≡ false → (writing w).0 ≡ ok tt → Wrote w
    unfolding write_parquet_file
    write_parquet_file-Wrote w free h =
        let (_, _, h₁, s₁) = bind-eq-ok (D.create_dir_all dir) _ w h in
        let w₁ = (D.create_dir_all dir w).1 in
        let (file, created, h₂, s₂) = bind-eq-ok (D.create_file path) _ w₁ h₁ in
        let w₂ = (D.create_file path w₁).1 in
        let (writer, fresh, h₃, s₃) =
          bind-eq-ok (D.new_writer file (file_schema columns)) _ w₂ h₂ in
        let w₃ = (D.new_writer file (file_schema columns) w₂).1 in
        let (values, valued, h₄, s₄) =
          bind-eq-ok (lift (value_columns (length columns) 0 rows)) _ w₃ h₃ in
        let (b, made, h₅, s₅) =
          bind-eq-ok
            (lift (D.new_batch (file_schema columns) (metadata_columns event_type rows ++ values)))
            (λ b. write_and_close D b writer) w₃ h₄ in
        let writer' = (D.write b (writer, w₃)).1.0 in
        let w₄ = (D.write b (writer, w₃)).1.1 in
        let (wrote, closed, s₆) = write_and_close-ok b writer w₃ h₅ in
        let same : (writing w).1 ≡ (D.close writer' w₄).1 = s₁ ∙ s₂ ∙ s₃ ∙ s₄ ∙ s₅ ∙ s₆ in
        record {
          writer = writer';
          rows_in_it = record {
            file = file;
            created = (w₁, created);
            values = values;
            valued = valued;
            batch = b;
            made = made;
            opened = writer;
            fresh = (w₂, fresh);
            written = (w₃, refl);
            contents =
                L.writing.batches-write b writer w₃ wrote
                ∙ ap (λ bs. bs ++ b ∷ [])
                    (L.writing.batches-new_writer file (file_schema columns) w₂ writer fresh);
          };
          grows =
              ap L.closing.closed same
              ∙ L.closing.closed-close writer' w₄ closed
              ∙ ap (λ l. l ++ writer' ∷ [])
                  (L.closed-write b writer w₃
                    ∙ L.closed-new_writer file (file_schema columns) w₂
                    ∙ L.closed-create_file path w₁ (free-create_dir_all w free)
                    ∙ L.closed-create_dir_all dir w);
        }
