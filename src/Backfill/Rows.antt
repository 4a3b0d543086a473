-- ===== src/Backfill/Rows.antt =====
-- `EventRow` of src/backfill.rs, and `rows.sort_by`.
pub mod Order
use polymarket_indexer.Prelude.{
  ℕ, String, List, [], ◌∷◌, Bool, ltb, leb, ◌==◌, ◌&&◌, ◌||◌, if◌then◌else◌,
}

pub record EventRow : Type 0 where
  pub block_number : ℕ
  pub tx_hash : String
  pub log_index : ℕ
  pub values : List String

-- `a.block_number.cmp(&b.block_number).then(a.log_index.cmp(&b.log_index))` is not `Greater`.
unfoldable pub row_le : EventRow → EventRow → Bool
row_le a b =
    ltb a.block_number b.block_number
    || (a.block_number == b.block_number && leb a.log_index b.log_index)

-- `sort_by` is a stable sort: it is modelled by insertion, which keeps equal rows in their order.
unfoldable pub insert_row : EventRow → List EventRow → List EventRow
insert_row x [] = x ∷ []
insert_row x (y ∷ ys) = if row_le x y then x ∷ y ∷ ys else y ∷ insert_row x ys

unfoldable pub sort_rows : List EventRow → List EventRow
unfolding insert_row
sort_rows [] = []
sort_rows (x ∷ xs) = insert_row x (sort_rows xs)
