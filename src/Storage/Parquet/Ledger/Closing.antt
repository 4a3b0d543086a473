-- ===== src/Storage/Parquet/Ledger/Closing.antt =====
-- What a close of the Parquet sink does to its batches.
use mathlib.Core.List.{append_assoc, append-nil}
use polymarket_indexer.Prelude.{◌≡◌, refl, ap, sym, ◌∙◌, List, [], ◌∷◌, ◌++◌, map, inl, inr}
use polymarket_indexer.Prelude.Dict.{Dict}
use polymarket_indexer.Prelude.Outcome.{ok}
use polymarket_indexer.Storage.Arrow.{Disk}
use polymarket_indexer.Storage.Parquet.{Machine, close_writers}
use polymarket_indexer.Storage.Parquet.Paths.{DiskLaws}
use polymarket_indexer.Storage.Parquet.Rotation.{close_writers-closes}
use polymarket_indexer.Storage.Parquet.Ledger.{batches, all_batches, stored, open_batches, contents}

module _ (D : Disk) (L : DiskLaws D) where
  all_batches-append :
      (xs ys : List D.Writer)
      → all_batches D L (xs ++ ys) ≡ all_batches D L xs ++ all_batches D L ys
  all_batches-append [] ys = refl
  all_batches-append (x ∷ xs) ys =
      ap (λ l. batches D L x ++ l) (all_batches-append xs ys)
      ∙ sym (append_assoc (batches D L x) (all_batches D L xs) (all_batches D L ys))

  all_batches-map :
      (ws : Dict D.Writer) → all_batches D L (map (λ (_, x). x) ws) ≡ open_batches D L ws
  all_batches-map [] = refl
  all_batches-map ((_, x) ∷ ws) = ap (λ l. batches D L x ++ l) (all_batches-map ws)

  -- A close that returns leaves every batch in a complete file.
  pub stored-close_writers :
      (m : Machine D)
      → (close_writers D m).0 ≡ ok tt
      → (stored D L (close_writers D m).1.world ≡ contents D L m)
        × ((close_writers D m).1.storage.writers ≡ [])
  stored-close_writers m h =
      let (complete, lost, all, grows, none_open, outcome) = close_writers-closes D L.closing m in
      let none_lost : lost ≡ [] = elim outcome [
        | inl (_, e, _) ↦ e
        | inr (_, _, _, _, _, _, _, _, failed) ↦ cc
      ] in
      (
        ap (all_batches D L) grows
            ∙ all_batches-append (L.closing.closed m.world) complete
            ∙ ap (λ l. stored D L m.world ++ l)
                (ap (all_batches D L)
                    (sym (all ∙ ap (λ l. complete ++ l) none_lost ∙ append-nil complete))
                  ∙ all_batches-map m.storage.writers),
        none_open,
      )
