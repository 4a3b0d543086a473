-- ===== src/Storage/Parquet/Paths/Rotating.antt =====
-- A rotation of the Parquet sink keeps the names to come free.
use mathlib.Core.Path.{subst}
use polymarket_indexer.Prelude.{
  ◌+◌, ◌-◌, ◌<◌, String, ◌≡◌, inl, inr, refl, ap, sym, ◌∙◌, List, [], ◌∷◌, arith, u64_mod, min,
}
use polymarket_indexer.Prelude.Outcome.{ok, Result-cases}
use polymarket_indexer.Prelude.Exec.{bind-eq-ok}
use polymarket_indexer.Storage.Arrow.{Disk}
use polymarket_indexer.Storage.Parquet.{
  Machine, close_all, close_writers, rotate_writers, bump_file_set,
}
use polymarket_indexer.Storage.Parquet.Paths.{DiskLaws, IsQuiet, IsClear, path_of}

module _ (D : Disk) (L : DiskLaws D) where
  close_all-IsQuiet :
      (ws : List (String × D.Writer)) (w : D.World) → IsQuiet D w (close_all D ws w).1
  unfolding close_all
  close_all-IsQuiet [] w = (λ p. refl, omega arith)
  close_all-IsQuiet ((et, writer) ∷ ws) w =
      let w' = (D.close writer w).1 in
      let (same, later) = L.close-IsQuiet writer w in
      elim (Result-cases (D.close writer w).0) [
        | inr (_, e) ↦ rw (e, close_all) (same, later)
        | inl (_, e) ↦
            let (sames, laters) = close_all-IsQuiet ws w' in
            rw (e, close_all) (λ p. sames p ∙ same p, omega arith)
      ]

  -- A rotation that returned has moved on to a file set that no file belongs to.
  pub rotate_writers-IsClear :
      (m : Machine D)
      → m.storage.file_set_id + 1 < u64_mod
      → IsClear D m
      → (rotate_writers D m).0 ≡ ok tt
      → IsClear D (rotate_writers D m).1
        × ((rotate_writers D m).1.storage.file_set_id ≡ m.storage.file_set_id + 1)
  unfolding rotate_writers bump_file_set close_writers
  rotate_writers-IsClear m bound clear h =
      let (_, _, _, same) = bind-eq-ok (close_writers D) (λ _. bump_file_set D) m h in
      let (sames, later) = close_all-IsQuiet m.storage.writers m.world in
      let moved : min (m.storage.file_set_id + 1) (u64_mod - 1) ≡ m.storage.file_set_id + 1 =
        omega arith in
      (
        subst (IsClear D) (sym same) (λ et millis id time sets free.
            sames (path_of m.storage.base_path et millis id)
            ∙ clear et millis id (omega arith) (omega arith) (inr (omega arith))),
        ap (λ (x : Machine D). x.storage.file_set_id) same ∙ moved,
      )
