-- ===== src/Backfill/File/Columns.antt =====
-- The columns of a file: there is one of the right length for each field of the schema, and the
-- schema is that of the live sink.
use polymarket_indexer.Prelude.{
  ℕ, zero, suc, ◌+◌, ◌<◌, ◌≤◌, String, ◌≡◌, refl, List, [], ◌∷◌, some, arith, get_elem?, length,
  All,
}
use polymarket_indexer.Prelude.Outcome.{ok}
use polymarket_indexer.Storage.Arrow.{Column, string_array, uint64_array}
use polymarket_indexer.Storage.Parquet.{new_schema}
use polymarket_indexer.Backfill.Rows.{EventRow}
use polymarket_indexer.Backfill.File.{file_schema, values_at, value_columns}

-- The files of a backfill have the schema that the live sink gives to the same columns.
pub file_schema-eq-new_schema : (columns : List String) → file_schema columns ≡ new_schema columns
unfolding file_schema new_schema
file_schema-eq-new_schema columns = refl

get_elem?-lt {ℓ} :
    {A : Type ℓ} (xs : List A) (i : ℕ) → i < length xs → (a : A) × (get_elem? xs i ≡ some a)
get_elem?-lt [] i h = elim h [ ]
get_elem?-lt (x ∷ xs) zero h = (x, refl)
get_elem?-lt (x ∷ xs) (suc i) h = get_elem?-lt xs i (omega arith)

abbrev pub length_column : Column → ℕ
length_column (string_array vs) = length vs
length_column (uint64_array vs) = length vs

abbrev pub HasWidth : ℕ → List EventRow → Type 0
HasWidth n rows = All (λ (r : EventRow). length r.values ≡ n) rows

pub values_at_total :
    (n i : ℕ) (rows : List EventRow)
    → HasWidth n rows
    → i < n
    → (values : List String) × (values_at i rows ≡ ok values) × (length values ≡ length rows)
unfolding values_at
values_at_total n i [] h lt = ([], refl, refl)
values_at_total n i (row ∷ rows) h lt =
    let (value, e) = get_elem?-lt row.values i (omega (arith, h.0)) in
    let (values, e', l) = values_at_total n i rows h.1 lt in
    (value ∷ values, rw (e, values_at, e') refl, omega (arith, l))

-- With a value for each column in every row, no index is out of bounds: the columns are made, as
-- many as asked for, each with one value for each row.
pub value_columns_total :
    (n i : ℕ) (rows : List EventRow) (width : ℕ)
    → HasWidth width rows
    → i + n ≤ width
    → (columns : List Column) × (value_columns n i rows ≡ ok columns)
      × (length columns ≡ n)
      × All (λ c. length_column c ≡ length rows) columns
unfolding value_columns
value_columns_total zero i rows width h le = ([], refl, refl, tt)
value_columns_total (suc n) i rows width h le =
    let (values, e, l) = values_at_total width i rows h (omega arith) in
    let (rest, e', l', ls) = value_columns_total n (i + 1) rows width h (omega arith) in
    (string_array values ∷ rest, rw (e, e') refl, omega (arith, l'), (l, ls))
