-- ===== src/Storage/Parquet/Refinement.antt =====
-- A run of calls on the Parquet sink, against its abstract view: a bag of batches, to which each
-- event adds one.
use mathlib.Core.List.{Perm, append-nil, perm_middle}
use mathlib.Core.List.Perm
use mathlib.Core.Path.{subst}
use polymarket_indexer.Prelude.{
  ◌+◌, ◌<◌, length, u64_mod, arith, refl, ◌≡◌, ap, sym, ◌∙◌, List, [], ◌∷◌, ◌++◌,
}
use polymarket_indexer.Storage.Calls.{
  NoClose, SinkEvent, Call, write, rotate, close, events_of, call, run_calls, Reaches,
  Reaches-uncons, Reaches-split,
}
use polymarket_indexer.Storage.Parquet.Paths.{DiskLaws, IsClear}
use polymarket_indexer.Storage.Parquet.Paths.Settings.{write_event-Stays}
use polymarket_indexer.Storage.Parquet.Paths.Rotating.{rotate_writers-IsClear}
use polymarket_indexer.Prelude.Outcome.{ok}
use polymarket_indexer.Prelude.Exec.{bind-eq-ok}
use polymarket_indexer.Storage.Arrow.{Disk}
use polymarket_indexer.Storage.Parquet.{
  Machine, write_event, rotate_writers, close_writers, bump_file_set, parquet_sink,
}
use polymarket_indexer.Storage.Parquet.Ledger.Closing.{stored-close_writers}
use polymarket_indexer.Storage.Parquet.Ledger.{stored, contents, Holds, contents-write_event}

module _ (D : Disk) (L : DiskLaws D) where
  -- One batch for each event, in order.
  abbrev pub HoldsAll : List SinkEvent → List D.Batch → Type 0
  HoldsAll [] [] = Unit
  HoldsAll (e ∷ es) (b ∷ bs) = Holds D L e b × HoldsAll es bs
  HoldsAll _ _ = ⊥

  contents-close_writers :
      (m : Machine D)
      → (close_writers D m).0 ≡ ok tt
      → contents D L (close_writers D m).1 ≡ contents D L m
  contents-close_writers m h =
      let (kept, none_open) = stored-close_writers D L m h in rw none_open (append-nil _ ∙ kept)

  contents-rotate_writers :
      (m : Machine D)
      → (rotate_writers D m).0 ≡ ok tt
      → contents D L (rotate_writers D m).1 ≡ contents D L m
  unfolding rotate_writers bump_file_set
  contents-rotate_writers m h =
      let (_, closed, _, same) = bind-eq-ok (close_writers D) (λ _. bump_file_set D) m h in
      ap (contents D L) same ∙ contents-close_writers m closed

  -- The events that are written become batches of complete or open files, each once and unchanged,
  -- whatever is rotated between them: a file is only created under a name that is free.
  pub contents-run_calls :
      (calls : List Call) (m n : Machine D)
      → NoClose calls
      → m.storage.file_set_id + length calls < u64_mod
      → IsClear D m
      → Reaches (parquet_sink D) calls m n
      → (bs : List D.Batch) × HoldsAll (events_of calls) bs
        × Perm (contents D L n) (bs ++ contents D L m)
  unfolding events_of run_calls call
  contents-run_calls [] m n o bound clear r =
      ([], tt, rw (ap (λ x. x.1) r) (Perm.refl (contents D L n)))
  contents-run_calls (write e ∷ calls) m n o bound clear r =
      let (t, first, rest) = Reaches-uncons (parquet_sink D) (write e) calls m n r in
      let (b, held, added, clear') = contents-write_event D L e m clear (ap (λ x. x.0) first) in
      let there : t
          ≡ (write_event D e.event_type e.block_number e.tx_hash e.log_index e.columns m).1 =
        sym (ap (λ x. x.1) first) in
      let stays = write_event-Stays D m.storage.base_path m.storage.file_set_id e m (refl, refl) in
      let set : t.storage.file_set_id ≡ m.storage.file_set_id =
        ap (λ (x : Machine D). x.storage.file_set_id) there ∙ stays.1 in
      let (bs, hold, perm) =
        contents-run_calls calls t n o (omega arith) (subst (IsClear D) (sym there) clear') rest in
      (
        b ∷ bs,
        (held, hold),
        Perm.trans perm
            (Perm.trans (Perm.append_left bs (rw there added)) (perm_middle bs (contents D L m))),
      )
  contents-run_calls (rotate ∷ calls) m n o bound clear r =
      let (t, first, rest) = Reaches-uncons (parquet_sink D) rotate calls m n r in
      let returned = ap (λ x. x.0) first in
      let there : t ≡ (rotate_writers D m).1 = sym (ap (λ x. x.1) first) in
      let (clear', next) = rotate_writers-IsClear D L m (omega arith) clear returned in
      let set : t.storage.file_set_id ≡ m.storage.file_set_id + 1 =
        ap (λ (x : Machine D). x.storage.file_set_id) there ∙ next in
      let (bs, hold, perm) =
        contents-run_calls calls t n o (omega arith) (subst (IsClear D) (sym there) clear') rest in
      let kept = ap (contents D L) there ∙ contents-rotate_writers m returned in
      (bs, hold, subst (λ l. Perm (contents D L n) (bs ++ l)) kept perm)
  contents-run_calls (close ∷ calls) m n o bound clear r = elim o [ ]

  -- After a run of writes and rotations and then a close, in which every call returned, the complete
  -- files hold what the files held before and one batch for each event that was written: no event is
  -- lost, and none is stored twice. At the start no file may have a name that is yet to be given, and the
  -- file set must not come to 2^64.
  pub stored-run_calls :
      (calls : List Call) (m n : Machine D)
      → NoClose calls
      → m.storage.file_set_id + length calls < u64_mod
      → IsClear D m
      → Reaches (parquet_sink D) (calls ++ close ∷ []) m n
      → (bs : List D.Batch) × HoldsAll (events_of calls) bs
        × Perm (stored D L n.world) (bs ++ contents D L m)
  unfolding run_calls call
  stored-run_calls calls m n o bound clear r =
      let (t, before, closing) = Reaches-split (parquet_sink D) calls (close ∷ []) m n r in
      let (bs, hold, perm) = contents-run_calls calls m t o bound clear before in
      let (u, closed, last) = Reaches-uncons (parquet_sink D) close [] t n closing in
      let (kept, _) = stored-close_writers D L t (ap (λ x. x.0) closed) in
      let same : stored D L n.world ≡ contents D L t =
        ap (λ (x : Machine D). stored D L x.world) (sym (ap (λ x. x.1) closed ∙ ap (λ x. x.1) last))
        ∙ kept in
      (bs, hold, rw same perm)
