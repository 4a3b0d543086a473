-- ===== src/Backfill/Rows/Order.antt =====
-- The sorted rows are in order of block and log index, are the same rows, and rows with one position
-- keep their order.
use mathlib.Core.List.{Perm}
use mathlib.Core.List.Perm
use polymarket_indexer.Prelude.{
  ℕ, ◌≡◌, refl, ap, ◌∙◌, List, [], ◌∷◌, true, false, arith, ◌==◌, ◌&&◌, if◌then◌else◌, Bool-cases,
  inl, inr, All, All-map, ltb, ◌<◌, ◌≤◌, ◌⊎◌,
}
use polymarket_indexer.Backfill.Rows.{EventRow, row_le, insert_row, sort_rows}

-- The order of the rows of a file: by block number, and by log index within a block.
abbrev pub Precedes : EventRow → EventRow → Type 0
Precedes a b =
    (a.block_number < b.block_number)
    ⊎ ((a.block_number ≡ b.block_number) × (a.log_index ≤ b.log_index))

-- Each row comes before all that follow it.
abbrev pub IsSorted : List EventRow → Type 0
IsSorted [] = Unit
IsSorted (x ∷ xs) = All (Precedes x) xs × IsSorted xs

row_le-Precedes : (a b : EventRow) → row_le a b ≡ true → Precedes a b
unfolding row_le
row_le-Precedes a b h = elim (Bool-cases (ltb a.block_number b.block_number)) [
  | inl less ↦ inl (ground arith)
  | inr other ↦ inr (ground arith, ground arith)
]

row_le-Precedes_back : (a b : EventRow) → row_le a b ≡ false → Precedes b a
unfolding row_le
row_le-Precedes_back a b h = elim (Bool-cases (ltb b.block_number a.block_number)) [
  | inl less ↦ inl (ground arith)
  | inr other ↦ inr (ground arith, ground arith)
]

Precedes-trans : (a b c : EventRow) → Precedes a b → Precedes b c → Precedes a c
Precedes-trans a b c (inl h) (inl k) = inl (omega arith)
Precedes-trans a b c (inl h) (inr (k, _)) = inl (omega arith)
Precedes-trans a b c (inr (h, _)) (inl k) = inl (omega arith)
Precedes-trans a b c (inr (h, i)) (inr (k, j)) = inr (omega arith, omega arith)

pub All-insert_row :
    (P : EventRow → Type 0) (x : EventRow) (ys : List EventRow)
    → P x
    → All P ys
    → All P (insert_row x ys)
unfolding insert_row
All-insert_row P x [] px h = (px, tt)
All-insert_row P x (y ∷ ys) px h = elim (Bool-cases (row_le x y)) [
  | inl le ↦ rw le (px, h)
  | inr gt ↦ rw gt (h.0, All-insert_row P x ys px h.1)
]

insert_row-IsSorted : (x : EventRow) (ys : List EventRow) → IsSorted ys → IsSorted (insert_row x ys)
unfolding insert_row
insert_row-IsSorted x [] s = (tt, tt)
insert_row-IsSorted x (y ∷ ys) s = elim (Bool-cases (row_le x y)) [
  | inl le ↦ rw le (
    (
      row_le-Precedes x y le,
      All-map (Precedes y) (Precedes x) ys (λ z. Precedes-trans x y z (row_le-Precedes x y le)) s.0,
    ),
    s,
  )
  | inr gt ↦ rw gt (
    All-insert_row (Precedes y) x ys (row_le-Precedes_back x y gt) s.0,
    insert_row-IsSorted x ys s.1,
  )
]

-- The rows of a file are in order of block number, and of log index within a block.
pub sort_rows-IsSorted : (xs : List EventRow) → IsSorted (sort_rows xs)
unfolding sort_rows
sort_rows-IsSorted [] = tt
sort_rows-IsSorted (x ∷ xs) = insert_row-IsSorted x (sort_rows xs) (sort_rows-IsSorted xs)

insert_row-perm : (x : EventRow) (ys : List EventRow) → Perm (insert_row x ys) (x ∷ ys)
unfolding insert_row
insert_row-perm x [] = Perm.refl (x ∷ [])
insert_row-perm x (y ∷ ys) = elim (Bool-cases (row_le x y)) [
  | inl le ↦ rw le (Perm.refl (x ∷ y ∷ ys))
  | inr gt ↦ rw gt (Perm.trans (Perm.cons y (insert_row-perm x ys)) (Perm.swap x y ys))
]

-- Sorting neither drops nor duplicates a row.
pub sort_rows-perm : (xs : List EventRow) → Perm (sort_rows xs) xs
unfolding sort_rows
sort_rows-perm [] = Perm.refl []
sort_rows-perm (x ∷ xs) =
    Perm.trans (insert_row-perm x (sort_rows xs)) (Perm.cons x (sort_rows-perm xs))

-- The rows at one position, in their order.
pub at_position : ℕ → ℕ → List EventRow → List EventRow
at_position b i [] = []
at_position b i (x ∷ xs) =
    if x.block_number == b && x.log_index == i then x ∷ at_position b i xs else at_position b i xs

at_position-insert_row :
    (b i : ℕ) (x : EventRow) (ys : List EventRow)
    → at_position b i (insert_row x ys) ≡ at_position b i (x ∷ ys)
unfolding at_position insert_row row_le
at_position-insert_row b i x [] = refl
at_position-insert_row b i x (y ∷ ys) = ground (arith, at_position-insert_row b i x ys)

-- The sort is stable: rows with one block number and log index keep their order.
pub at_position-sort_rows :
    (b i : ℕ) (xs : List EventRow) → at_position b i (sort_rows xs) ≡ at_position b i xs
unfolding sort_rows at_position
at_position-sort_rows b i [] = refl
at_position-sort_rows b i (x ∷ xs) =
    at_position-insert_row b i x (sort_rows xs)
    ∙ ap (λ l. if x.block_number == b && x.log_index == i then x ∷ l else l)
        (at_position-sort_rows b i xs)

-- The sort of the rows: the result is in order of block number, and of log index within a block; no
-- row is lost or duplicated; and rows with one block number and log index keep their order.
pub sort_rows_stable :
    (xs : List EventRow)
    → IsSorted (sort_rows xs)
      × Perm (sort_rows xs) xs
      × ((b i : ℕ) → at_position b i (sort_rows xs) ≡ at_position b i xs)
sort_rows_stable xs =
    (sort_rows-IsSorted xs, sort_rows-perm xs, λ b i. at_position-sort_rows b i xs)
