-- ===== src/Backfill/Chunks/Distinct.antt =====
-- No chunk is handed out twice.
use polymarket_indexer.Prelude.{ℕ, ◌+◌, ◌≤◌, ◌≢◌, ap, List, [], ◌∷◌, arith, All, All-map, Distinct}
use polymarket_indexer.Backfill.Chunks.Cover.{Tiles}

Tiles-above :
    (start end size : ℕ) (rs : List (ℕ × ℕ))
    → Tiles start end size rs
    → All (λ (r : ℕ × ℕ). start ≤ r.0) rs
Tiles-above start end size [] t = absurd t
Tiles-above start end size ((a, b) ∷ []) t = (omega arith, tt)
Tiles-above start end size ((a, b) ∷ r ∷ rs) t = (
  omega arith,
  All-map (λ (r : ℕ × ℕ). b + 1 ≤ r.0) (λ (r : ℕ × ℕ). start ≤ r.0) (r ∷ rs) (λ r h. omega arith)
      (Tiles-above (b + 1) end size (r ∷ rs) t.3),
)

pub Tiles-Distinct :
    (start end size : ℕ) (rs : List (ℕ × ℕ)) → Tiles start end size rs → Distinct rs
Tiles-Distinct start end size [] t = absurd t
Tiles-Distinct start end size ((a, b) ∷ []) t = (tt, tt)
Tiles-Distinct start end size ((a, b) ∷ r ∷ rs) t = (
  All-map (λ (r : ℕ × ℕ). b + 1 ≤ r.0) (λ (r : ℕ × ℕ). r ≢ (a, b)) (r ∷ rs)
      (λ r h e. omega (arith, ap (λ (x : ℕ × ℕ). x.0) e))
      (Tiles-above (b + 1) end size (r ∷ rs) t.3),
  Tiles-Distinct (b + 1) end size (r ∷ rs) t.3,
)
