-- ===== src/Backfill/Chunks.antt =====
-- `chunk_ranges`: the block range cut into pieces of at most a given size.
pub mod Cover
pub mod Distinct
use polymarket_indexer.Prelude.{
  ℕ, zero, suc, ◌+◌, ◌-◌, List, [], ◌∷◌, Option, none, some, leb, ◌==◌, min, add64, sub64,
  if◌then◌else◌,
}
use mathlib.Core.Option

-- One call of the loop's body for each unit of fuel; `none` means that the fuel ran out. The sums
-- are those of a release build, which wrap around.
unfoldable pub chunk_loop : ℕ → ℕ → ℕ → ℕ → Option (List (ℕ × ℕ))
chunk_loop zero current end size = none
chunk_loop (suc fuel) current end size =
    let chunk_end = min (sub64 (add64 current size) 1) end in
    let rest = chunk_loop fuel (add64 chunk_end 1) end size in
    if leb current end
    then (if chunk_end == end
        then some ((current, chunk_end) ∷ [])
        else Option.map (λ ranges. (current, chunk_end) ∷ ranges) rest)
    else some []

-- With no wrap-around each round moves on by at least one block.
unfoldable pub chunk_ranges : ℕ → ℕ → ℕ → Option (List (ℕ × ℕ))
unfolding chunk_loop
chunk_ranges start end size = chunk_loop (end - start + 2) start end size
