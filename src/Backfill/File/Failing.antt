-- ===== src/Backfill/File/Failing.antt =====
-- A write of a file that fails leaves no complete file, at whatever call it fails.
use polymarket_indexer.Prelude.{
  ℕ, String, ◌≡◌, ◌⊎◌, inl, inr, ap, ◌∙◌, false, List, [], ◌∷◌, ◌++◌, length,
}
use polymarket_indexer.Prelude.Outcome.{Result-cases, ok, err}
use polymarket_indexer.Prelude.Exec.{Exec, lift, ◌>>=◌, bind-eq-err}
use polymarket_indexer.Storage.Arrow.{FilePath, Disk}
use polymarket_indexer.Storage.Parquet.Paths.{DiskLaws}
use polymarket_indexer.Backfill.Rows.{EventRow}
use polymarket_indexer.Backfill.File.{
  file_schema, value_columns, metadata_columns, write_and_close, write_parquet_file,
}
use polymarket_indexer.Backfill.File.Writing.{
  chunk_path, Wrote, write_parquet_file-Wrote, free-create_dir_all,
}

module _ (D : Disk) (L : DiskLaws D) where
  module _ (output_dir event_type : String) (columns : List String) (rows : List EventRow)
      (chunk_start chunk_end : ℕ) where
    abbrev path : FilePath
    path = chunk_path output_dir event_type chunk_start chunk_end

    abbrev dir : FilePath
    dir = output_dir ∷ event_type ∷ []

    abbrev writing : Exec D.World (Unit {0})
    writing = write_parquet_file D output_dir event_type columns rows chunk_start chunk_end

    write_and_close-err :
        (b : D.Batch) (writer : D.Writer) (w : D.World) (e : String)
        → (write_and_close D b writer w).0 ≡ err e
        → L.closing.closed (write_and_close D b writer w).1 ≡ L.closing.closed w
    unfolding write_and_close
    write_and_close-err b writer w e h =
        let (r, (writer', w')) = D.write b (writer, w) in
        elim (bind-eq-err (lift r) (λ _. D.close writer') w' h) [
          | inl (_, s) ↦ ap L.closing.closed s ∙ L.closed-write b writer w
          | inr (_, _, failed, s) ↦
              ap L.closing.closed s
              ∙ L.closing.closed-close_failed writer' w' e failed
              ∙ L.closed-write b writer w
        ]

    -- The end of the function, from the columns on.
    abbrev filling : D.Writer → Exec D.World (Unit {0})
    filling writer = do
      values ← lift (value_columns (length columns) 0 rows)
      batch ← lift (D.new_batch (file_schema columns) (metadata_columns event_type rows ++ values))
      write_and_close D batch writer

    closed-filling :
        (writer : D.Writer) (w : D.World) (e : String)
        → (filling writer w).0 ≡ err e
        → L.closing.closed (filling writer w).1 ≡ L.closing.closed w
    closed-filling writer w e h =
        elim (bind-eq-err (lift (value_columns (length columns) 0 rows)) _ w h) [
          | inl (_, s₁) ↦ ap L.closing.closed s₁
          | inr (values, _, h₁, s₁) ↦
              elim (bind-eq-err
                (lift
                  (D.new_batch (file_schema columns) (metadata_columns event_type rows ++ values)))
                (λ b. write_and_close D b writer) w h₁) [
                  | inl (_, s₂) ↦ ap L.closing.closed (s₁ ∙ s₂)
                  | inr (b, _, h₂, s₂) ↦
                      ap L.closing.closed (s₁ ∙ s₂) ∙ write_and_close-err b writer w e h₂
                ]
        ]

    closed-write_parquet_file :
        (w : D.World) (e : String)
        → D.exists path w ≡ false
        → (writing w).0 ≡ err e
        → L.closing.closed (writing w).1 ≡ L.closing.closed w
    unfolding write_parquet_file
    closed-write_parquet_file w e free h =
        let w₁ = (D.create_dir_all dir w).1 in
        let w₂ = (D.create_file path w₁).1 in
        let same₁ = L.closed-create_dir_all dir w in
        let same₂ =
          L.closed-create_file path w₁ (
            free-create_dir_all D L output_dir event_type columns rows chunk_start chunk_end w free)
          ∙ same₁ in
        elim (bind-eq-err (D.create_dir_all dir) _ w h) [
          | inl (_, s₁) ↦ ap L.closing.closed s₁ ∙ same₁
          | inr (_, _, h₁, s₁) ↦ elim (bind-eq-err (D.create_file path) _ w₁ h₁) [
            | inl (_, s₂) ↦ ap L.closing.closed (s₁ ∙ s₂) ∙ same₂
            | inr (file, _, h₂, s₂) ↦
                let w₃ = (D.new_writer file (file_schema columns) w₂).1 in
                let same₃ = L.closed-new_writer file (file_schema columns) w₂ ∙ same₂ in
                elim (bind-eq-err (D.new_writer file (file_schema columns)) filling w₂ h₂) [
                  | inl (_, s₃) ↦ ap L.closing.closed (s₁ ∙ s₂ ∙ s₃) ∙ same₃
                  | inr (writer, _, h₃, s₃) ↦
                      ap L.closing.closed (s₁ ∙ s₂ ∙ s₃) ∙ closed-filling writer w₃ e h₃ ∙ same₃
                ]
          ]
        ]

    -- Under a path that is free, a write either returns, and has added one complete file that holds
    -- one batch, made of the rows, or it fails, at whatever call, and has added no complete file.
    pub write_parquet_file-cases :
        (w : D.World)
        → D.exists path w ≡ false
        → (((writing w).0 ≡ ok tt)
            × Wrote D L output_dir event_type columns rows chunk_start chunk_end w)
          ⊎ ((e : String) × ((writing w).0 ≡ err e)
              × (L.closing.closed (writing w).1 ≡ L.closing.closed w))
    write_parquet_file-cases w free = elim (Result-cases (writing w).0) [
      | inl (_, e) ↦ inl (
        e,
        write_parquet_file-Wrote D L output_dir event_type columns rows chunk_start chunk_end w free
            e,
      )
      | inr (m, e) ↦ inr (m, e, closed-write_parquet_file w m free e)
    ]
