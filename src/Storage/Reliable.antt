-- ===== src/Storage/Reliable.antt =====
-- A disk that works: all of its calls return, and batches are made of arrays that fit their schema.
use polymarket_indexer.Prelude.{ℕ, String, ◌≡◌, List, [], ◌∷◌, ◌++◌, map, length}
use polymarket_indexer.Prelude.Outcome.{ok}
use polymarket_indexer.Storage.Arrow.{
  utf8, uint64, Schema, Column, string_array, uint64_array, FilePath, Disk,
}
use polymarket_indexer.Storage.Parquet.{required}

-- One array for each field, of its type, and all of the given length.
abbrev pub Fits : ℕ → Schema → List Column → Type 0
Fits n [] [] = Unit
Fits n (field ∷ fields) (string_array vs ∷ columns) =
    (field.data_type ≡ utf8) × (length vs ≡ n) × Fits n fields columns
Fits n (field ∷ fields) (uint64_array vs ∷ columns) =
    (field.data_type ≡ uint64) × (length vs ≡ n) × Fits n fields columns
Fits _ _ _ = ⊥

pub Fits-append :
    (n : ℕ) (xs ys : Schema) (cs ds : List Column)
    → Fits n xs cs
    → Fits n ys ds
    → Fits n (xs ++ ys) (cs ++ ds)
Fits-append n [] ys [] ds h k = k
Fits-append n [] ys (c ∷ cs) ds h k = absurd h
Fits-append n (x ∷ xs) ys [] ds h k = absurd h
Fits-append n (x ∷ xs) ys (string_array vs ∷ cs) ds h k =
    (h.0, h.1, Fits-append n xs ys cs ds h.2 k)
Fits-append n (x ∷ xs) ys (uint64_array vs ∷ cs) ds h k =
    (h.0, h.1, Fits-append n xs ys cs ds h.2 k)

abbrev pub text_fields : List String → Schema
text_fields names = map (λ name. required name utf8) names

-- A disk all of whose calls return; a batch is made of arrays that fit its schema.
pub record IsReliable (D : Disk) : Type 0 where
  pub create_dir_all-ok : (dir : FilePath) (w : D.World) → (D.create_dir_all dir w).0 ≡ ok tt
  pub create_file-ok :
      (path : FilePath) (w : D.World) → (file : D.File) × ((D.create_file path w).0 ≡ ok file)
  pub new_writer-ok :
      (file : D.File) (schema : Schema) (w : D.World)
      → (writer : D.Writer) × ((D.new_writer file schema w).0 ≡ ok writer)
  pub new_batch-ok :
      (n : ℕ) (schema : Schema) (columns : List Column)
      → Fits n schema columns
      → (batch : D.Batch) × (D.new_batch schema columns ≡ ok batch)
  pub write-ok :
      (batch : D.Batch) (writer : D.Writer) (w : D.World) → (D.write batch (writer, w)).0 ≡ ok tt
  pub close-ok : (writer : D.Writer) (w : D.World) → (D.close writer w).0 ≡ ok tt
