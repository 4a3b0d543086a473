-- ===== src/Backfill/Chunks/Cover.antt =====
-- The chunks tile the block range: they are in order, none is longer than the size, and every block
-- of the range lies in exactly one. Where the sums wrap around, they do not.
use polymarket_indexer.Prelude.{
  ℕ, zero, suc, ◌+◌, ◌-◌, ◌≤◌, ◌<◌, ◌≡◌, refl, List, [], ◌∷◌, some, leb, min, add64, sub64, ◌&&◌,
  u64_mod, arith, if◌then◌else◌, Bool-cases, inl, inr,
}
use polymarket_indexer.Backfill.Chunks.{chunk_loop, chunk_ranges}

-- The ranges follow one another from `start` to `end`: all but the last have `size` blocks, and the
-- last has at least one and at most `size`.
abbrev pub Tiles : ℕ → ℕ → ℕ → List (ℕ × ℕ) → Type 0
Tiles start end size [] = ⊥
Tiles start end size ((a, b) ∷ []) = (a ≡ start) × (a ≤ b) × (b ≡ end) × (b < a + size)
Tiles start end size ((a, b) ∷ r ∷ rs) =
    (a ≡ start) × (a ≤ b) × (b + 1 ≡ a + size) × Tiles (b + 1) end size (r ∷ rs)

-- In how many of the ranges a block lies.
unfoldable pub covering : ℕ → List (ℕ × ℕ) → ℕ
covering n [] = 0
covering n ((a, b) ∷ rs) = (if leb a n && leb n b then 1 else 0) + covering n rs

Tiles-cons :
    (start end size b : ℕ) (rs : List (ℕ × ℕ))
    → start ≤ b
    → b + 1 ≡ start + size
    → Tiles (b + 1) end size rs
    → Tiles start end size ((start, b) ∷ rs)
Tiles-cons start end size b [] h e t = absurd t
Tiles-cons start end size b (r ∷ rs) h e t = (refl, h, e, t)

module _ (end size : ℕ) (pos : 0 < size) (fits : end + size ≤ u64_mod) where
  chunk_end_eq :
      (current : ℕ)
      → current ≤ end
      → min (sub64 (add64 current size) 1) end ≡ min (current + size - 1) end
  chunk_end_eq current h = omega arith

  chunk_loop-Tiles :
      (fuel current : ℕ)
      → current ≤ end
      → end - current < fuel
      → (ranges : List (ℕ × ℕ)) × (chunk_loop fuel current end size ≡ some ranges)
        × Tiles current end size ranges
  unfolding chunk_loop
  chunk_loop-Tiles zero current h lt = absurd (omega arith)
  chunk_loop-Tiles (suc fuel) current h lt = elim (Bool-cases (leb end (current + size - 1))) [
    | inl last ↦
        let e : min (sub64 (add64 current size) 1) end ≡ end = ground arith in
        ((current, end) ∷ [], rw e (ground arith), ground arith)
    | inr more ↦
        let b : ℕ = current + size - 1 in
        let e : min (sub64 (add64 current size) 1) end ≡ current + size - 1 = ground arith in
        let e' : add64 (current + size - 1) 1 ≡ current + size - 1 + 1 = ground arith in
        let (rs, done, tiles) =
          chunk_loop-Tiles fuel (current + size - 1 + 1) (ground arith) (ground arith) in
        (
          (current, current + size - 1) ∷ rs,
          rw (e, e', done) (ground arith),
          Tiles-cons current end size (current + size - 1) rs (ground arith) (ground arith) tiles,
        )
  ]

-- The chunks of a range tile it: they are in order and adjacent, all but the last have the given
-- size, and the last has at least one block and at most that many. The loop ends.
pub chunk_ranges-Tiles :
    (start end size : ℕ)
    → start ≤ end
    → 0 < size
    → end + size ≤ u64_mod
    → (ranges : List (ℕ × ℕ)) × (chunk_ranges start end size ≡ some ranges)
      × Tiles start end size ranges
unfolding chunk_ranges
chunk_ranges-Tiles start end size h pos fits =
    chunk_loop-Tiles end size pos fits (end - start + 2) start h (omega arith)

covering-Tiles_below :
    (n start end size : ℕ) (rs : List (ℕ × ℕ))
    → Tiles start end size rs
    → n < start
    → covering n rs ≡ 0
unfolding covering
covering-Tiles_below n start end size [] t h = absurd t
covering-Tiles_below n start end size ((a, b) ∷ []) t h = ground arith
covering-Tiles_below n start end size ((a, b) ∷ r ∷ rs) t h =
    ground (arith, covering-Tiles_below n (b + 1) end size (r ∷ rs) t.3)

end-Tiles : (start end size : ℕ) (rs : List (ℕ × ℕ)) → Tiles start end size rs → start ≤ end
end-Tiles start end size [] t = absurd t
end-Tiles start end size ((a, b) ∷ []) t = omega arith
end-Tiles start end size ((a, b) ∷ r ∷ rs) t =
    omega (arith, end-Tiles (b + 1) end size (r ∷ rs) t.3)

covering-Tiles :
    (n start end size : ℕ) (rs : List (ℕ × ℕ))
    → Tiles start end size rs
    → covering n rs ≡ (if leb start n && leb n end then 1 else 0)
unfolding covering
covering-Tiles n start end size [] t = absurd t
covering-Tiles n start end size ((a, b) ∷ []) t = ground arith
covering-Tiles n start end size ((a, b) ∷ r ∷ rs) t = ground (
  arith,
  covering-Tiles n (b + 1) end size (r ∷ rs) t.3,
  covering-Tiles_below n (b + 1) end size (r ∷ rs) t.3,
  end-Tiles (b + 1) end size (r ∷ rs) t.3,
)

-- Every block of the range is fetched in exactly one chunk, and no other block is fetched.
pub covering-chunk_ranges :
    (n start end size : ℕ)
    → start ≤ end
    → 0 < size
    → end + size ≤ u64_mod
    → (ranges : List (ℕ × ℕ)) × (chunk_ranges start end size ≡ some ranges)
      × (covering n ranges ≡ (if leb start n && leb n end then 1 else 0))
covering-chunk_ranges n start end size h pos fits =
    let (ranges, done, tiles) = chunk_ranges-Tiles start end size h pos fits in
    (ranges, done, covering-Tiles n start end size ranges tiles)
