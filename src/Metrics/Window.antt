-- ===== src/Metrics/Window.antt =====
-- Pruning from the front of a queue that is in order of time keeps exactly the entries of the last
-- 60 seconds.
use polymarket_indexer.Prelude.{
  ℕ, ◌≤◌, ◌≡◌, refl, List, [], ◌∷◌, ◌++◌, arith, All, All-append, false, Bool-cases, inl, inr,
  if◌then◌else◌,
}
use polymarket_indexer.Metrics.{expired, prune_front}

-- The entries of the last 60 seconds, wherever they stand.
pub recent : ℕ → List ℕ → List ℕ
recent now [] = []
recent now (t ∷ ts) = let rest = recent now ts in if expired now t then rest else t ∷ rest

-- In order of time.
abbrev pub IsOrdered : List ℕ → Type 0
IsOrdered [] = Unit
IsOrdered (t ∷ ts) = All (λ u. t ≤ u) ts × IsOrdered ts

recent-All :
    (now t : ℕ) (ts : List ℕ) → expired now t ≡ false → All (λ u. t ≤ u) ts → recent now ts ≡ ts
unfolding recent
recent-All now t [] h a = refl
recent-All now t (u ∷ us) h a = ground (arith, recent-All now t us h a.1)

-- The entries that pruning leaves are those of the last 60 seconds.
pub prune_front-eq-recent :
    (now : ℕ) (ts : List ℕ) → IsOrdered ts → prune_front now ts ≡ recent now ts
unfolding prune_front recent
prune_front-eq-recent now [] o = refl
prune_front-eq-recent now (t ∷ ts) o = elim (Bool-cases (expired now t)) [
  | inl old ↦ ground (arith, prune_front-eq-recent now ts o.1)
  | inr new ↦ ground (arith, recent-All now t ts new o.0)
]

pub prune_front-IsOrdered : (now : ℕ) (ts : List ℕ) → IsOrdered ts → IsOrdered (prune_front now ts)
unfolding prune_front
prune_front-IsOrdered now [] o = tt
prune_front-IsOrdered now (t ∷ ts) o = elim (Bool-cases (expired now t)) [
  | inl old ↦ rw (old, prune_front) (prune_front-IsOrdered now ts o.1)
  | inr new ↦ rw (new, prune_front) o
]

pub All-prune_front {κ} :
    (P : ℕ → Type κ) (now : ℕ) (ts : List ℕ) → All P ts → All P (prune_front now ts)
unfolding prune_front
All-prune_front P now [] h = tt
All-prune_front P now (t ∷ ts) h = elim (Bool-cases (expired now t)) [
  | inl old ↦ rw (old, prune_front) (All-prune_front P now ts h.1)
  | inr new ↦ rw (new, prune_front) h
]

-- An entry that is no older than the others goes to the end.
pub append-IsOrdered :
    (ts : List ℕ) (now : ℕ) → IsOrdered ts → All (λ t. t ≤ now) ts → IsOrdered (ts ++ now ∷ [])
append-IsOrdered [] now o h = (tt, tt)
append-IsOrdered (t ∷ ts) now o h =
    (All-append (λ u. t ≤ u) ts (now ∷ []) o.0 (h.0, tt), append-IsOrdered ts now o.1 h.1)
