-- ===== src/Storage/Parquet/Rotation.antt =====
-- Closing and rotation: which files are closed, and what the object holds afterwards.
use mathlib.Core.Path.{subst}
use polymarket_indexer.Prelude.{
  ℕ, String, ◌≡◌, refl, ap, sym, ◌∙◌, List, [], ◌∷◌, ◌++◌, map, arith, saturating_add64, inl, inr,
  ◌⊎◌,
}
use polymarket_indexer.Prelude.Outcome.{Result, Result-cases, ok, err}
use mathlib.Core.List.{append-nil, append_assoc}
use polymarket_indexer.Storage.Arrow.{Disk}
use polymarket_indexer.Storage.Parquet.{
  Machine, close_all, close_writers, rotate_writers, bump_file_set,
}

-- What the program relies on of `ArrowWriter::close`: the files that are complete are those whose
-- close returned.
pub record CloseLaws (D : Disk) : Type 0 where
  pub closed : D.World → List D.Writer
  pub closed-close :
      (writer : D.Writer) (w : D.World)
      → (D.close writer w).0 ≡ ok tt
      → closed (D.close writer w).1 ≡ closed w ++ writer ∷ []
  pub closed-close_failed :
      (writer : D.Writer) (w : D.World) (e : String)
      → (D.close writer w).0 ≡ err e
      → closed (D.close writer w).1 ≡ closed w

abbrev pub file_set_after {ℓ} : {A : Type ℓ} → Result A → ℕ → ℕ
file_set_after (ok _) id = saturating_add64 id 1
file_set_after (err _) id = id

module _ (D : Disk) where
  -- Rotation leaves no open file, keeps the schemas, and moves to the next file set if and only if
  -- every close returned.
  pub rotate_writers_state :
      (m : Machine D)
      → let (r, n) = rotate_writers D m in
        (n.storage.writers ≡ [])
        × (n.storage.schemas ≡ m.storage.schemas)
        × (n.storage.file_set_id ≡ file_set_after r m.storage.file_set_id)
  unfolding rotate_writers close_writers bump_file_set
  rotate_writers_state m = ground arith

module _ (D : Disk) where
  -- The writers are closed one after another, each close returns, and the last world is `w'`.
  abbrev pub Closes : List D.Writer → D.World → D.World → Type 0
  Closes [] w w' = w ≡ w'
  Closes (x ∷ xs) w w' = ((D.close x w).0 ≡ ok tt) × Closes xs (D.close x w).1 w'

  -- Every writer was closed; or those before the first whose close failed, and the call gives that
  -- error and goes no further.
  abbrev pub ClosesUpTo :
      List D.Writer → List D.Writer → Result (Unit {0}) → D.World → D.World → Type 0
  ClosesUpTo complete lost r w w' =
      ((r ≡ ok tt) × (lost ≡ []) × Closes complete w w')
      ⊎ ((x : D.Writer) × (rest : List D.Writer) × (e : String) × (v : D.World) × (lost ≡ x ∷ rest)
          × Closes complete w v
          × ((D.close x v).0 ≡ err e)
          × (w' ≡ (D.close x v).1)
          × (r ≡ err e))

  ClosesUpTo-cons :
      (x : D.Writer) (complete lost : List D.Writer) (r : Result (Unit {0})) (w w' : D.World)
      → (D.close x w).0 ≡ ok tt
      → ClosesUpTo complete lost r (D.close x w).1 w'
      → ClosesUpTo (x ∷ complete) lost r w w'
  ClosesUpTo-cons x complete lost r w w' h (inl (returned, none_lost, closes)) =
      inl (returned, none_lost, (h, closes))
  ClosesUpTo-cons x complete lost r w w' h
        (inr (y, rest, e, v, split, closes, failed, last, error)) =
      inr (y, rest, e, v, split, (h, closes), failed, last, error)

module _ (D : Disk) (L : CloseLaws D) where
  -- The files before the first close that fails are complete; the rest are not.
  record Split (ws : List (String × D.Writer)) (w : D.World) : Type 0 where
    complete : List D.Writer
    lost : List D.Writer
    all : map (λ (_, x). x) ws ≡ complete ++ lost
    grows : L.closed (close_all D ws w).1 ≡ L.closed w ++ complete
    reported : ClosesUpTo D complete lost (close_all D ws w).0 w (close_all D ws w).1

  close_all-Split : (ws : List (String × D.Writer)) (w : D.World) → Split ws w
  unfolding close_all
  close_all-Split [] w = record {
    complete = [];
    lost = [];
    all = refl;
    grows = rw append-nil;
    reported = inl (refl, refl, refl);
  }
  close_all-Split ((k, x) ∷ ws) w = elim (Result-cases (D.close x w).0) [
    | inl (_, e) ↦
        let rest = close_all-Split ws (D.close x w).1 in
        record {
          complete = x ∷ rest.complete;
          lost = rest.lost;
          all = ap (λ l. x ∷ l) rest.all;
          grows = rw e (
              rest.grows
              ∙ rw (L.closed-close x w e) (append_assoc (L.closed w) (x ∷ []) rest.complete));
          reported =
              let same : close_all D ((k, x) ∷ ws) w ≡ close_all D ws (D.close x w).1 = rw e refl in
              subst (λ o. ClosesUpTo D (x ∷ rest.complete) rest.lost o.0 w o.1) (sym same)
                (ClosesUpTo-cons D x rest.complete rest.lost _ w _ e rest.reported);
        }
    | inr (message, e) ↦ record {
      complete = [];
      lost = x ∷ map (λ (_, y). y) ws;
      all = refl;
      grows = rw (e, append-nil) (L.closed-close_failed x w message e);
      reported =
          let same : close_all D ((k, x) ∷ ws) w ≡ (err message, (D.close x w).1) = rw e refl in
          subst (λ o. ClosesUpTo D [] (x ∷ map (λ (_, y). y) ws) o.0 w o.1) (sym same)
            (inr (x, map (λ (_, y). y) ws, message, w, refl, refl, e, refl, refl));
    }
  ]

  -- Closing completes the open files one after another. Either every close returns, the call returns,
  -- and every file is complete; or the call stops at the first close that fails and gives its error,
  -- and the file of that close and those after it are not complete. The object has no open file then.
  pub close_writers-closes :
      (m : Machine D)
      → let (r, n) = close_writers D m in
        (complete : List D.Writer) × (lost : List D.Writer) × (map (λ (_, x). x) m.storage.writers
          ≡ complete ++ lost)
        × (L.closed n.world ≡ L.closed m.world ++ complete)
        × (n.storage.writers ≡ [])
        × ClosesUpTo D complete lost r m.world n.world
  unfolding close_writers
  close_writers-closes m =
      let s = close_all-Split m.storage.writers m.world in
      (s.complete, s.lost, s.all, s.grows, refl, s.reported)
