-- ===== src/Backfill/Group/Described.antt =====
-- The groups of a chunk, described by its logs alone.
use polymarket_indexer.Prelude.{
  String, ◌≡◌, ◌≢◌, sym, ap, ◌∙◌, List, [], ◌∷◌, some, arith, eq_iff, Option-cases, inl, inr, All,
  All-map,
}
use polymarket_indexer.Prelude.Dict.{NodupKeys, lookup}
use polymarket_indexer.Decode.{Log, Codec}
use polymarket_indexer.Decode.Columns.{schema_of}
use polymarket_indexer.Backfill.Rows.{EventRow}
use polymarket_indexer.Backfill.Group.{no_rows, group_logs}
use polymarket_indexer.Backfill.Group.Shape.{IsShaped, group_logs-IsShaped}
use polymarket_indexer.Backfill.Group.Distinct.{
  Groups, HasRows, group_logs-NodupKeys, group_logs-HasRows,
}
use polymarket_indexer.Backfill.Group.Contents.{rows_for, rows_of, rows_for-group_logs}

abbrev IsStored : Groups → String × (List String × List EventRow) → Type 0
IsStored m (k, v) = lookup k m ≡ some v

All-IsStored : (m : Groups) → NodupKeys m → All (IsStored m) m
unfolding lookup
All-IsStored [] u = tt
All-IsStored ((k, v) ∷ m) u = (
  ground (arith, eq_iff k k),
  All-map (IsStored m) (IsStored ((k, v) ∷ m)) m (λ (j, w) h. ground (arith, eq_iff k j, u.0))
      (All-IsStored m u.1),
)

module _ (c : Codec) (logs : List Log) where
  -- The columns of the group are those of its event type, and its rows, at least one, are those of
  -- the event type among the logs.
  pub record IsGroup (event_type : String) (columns : List String) (rows : List EventRow)
      : Type 0 where
    pub named : columns ≡ schema_of event_type
    pub filled : rows ≡ rows_of c event_type logs
    pub inhabited : rows ≢ []

  abbrev pub AreGroups : Groups → Type 0
  AreGroups = All λ (event_type, (columns, rows)). IsGroup event_type columns rows

  filled :
      (event_type : String) (columns : List String) (rows : List EventRow)
      → IsStored (group_logs c logs no_rows).by_event (event_type, (columns, rows))
      → rows ≡ rows_of c event_type logs
  unfolding rows_for
  filled event_type columns rows stored =
      rw (stored, rows_for) at (rows_for-group_logs c event_type logs)

  All-IsGroup :
      (m : Groups)
      → IsShaped m
      → HasRows m
      → All (IsStored (group_logs c logs no_rows).by_event) m
      → AreGroups m
  All-IsGroup [] shaped rows stored = tt
  All-IsGroup ((k, (columns, rows)) ∷ m) shaped has stored = (
    record { named = shaped.0.0; filled = filled k columns rows stored.0; inhabited = has.0 },
    All-IsGroup m shaped.1 has.1 stored.1,
  )

  -- After the loop, every group is that of its event type among the logs.
  pub group_logs-AreGroups : AreGroups (group_logs c logs no_rows).by_event
  group_logs-AreGroups =
      All-IsGroup (group_logs c logs no_rows).by_event (group_logs-IsShaped c logs)
        (group_logs-HasRows c logs) (All-IsStored _ (group_logs-NodupKeys c logs))

  -- An event type that has rows has a group.
  pub lookup-group_logs :
      (event_type : String)
      → rows_of c event_type logs ≢ []
      → (columns : List String) × (lookup event_type (group_logs c logs no_rows).by_event
          ≡ some (columns, rows_of c event_type logs))
  unfolding rows_for
  lookup-group_logs event_type some_row =
      let m = (group_logs c logs no_rows).by_event in
      let same = rows_for-group_logs c event_type logs in
      elim (Option-cases (lookup event_type m)) [
        | inl e ↦ absurd (some_row (sym (rw (e, rows_for) at same)))
        | inr ((columns, rows), e) ↦
            (columns, e ∙ ap (λ r. some (columns, r)) (rw (e, rows_for) at same))
      ]
