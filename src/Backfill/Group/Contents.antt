-- ===== src/Backfill/Group/Contents.antt =====
-- Which rows end up under which event type.
use mathlib.Core.List.{append-nil, append_assoc}
use polymarket_indexer.Prelude.{
  String, ◌≡◌, sym, ap, ◌∙◌, List, [], ◌∷◌, ◌++◌, map, none, some, arith, str_eq, eq_iff,
  Option-cases, inl, inr, if◌then◌else◌,
}
use polymarket_indexer.Prelude.Dict.{Dict, lookup, lookup-insert}
use polymarket_indexer.Prelude.Outcome.{ok, err, Result-cases}
use polymarket_indexer.Decode.{Log, DecodedEvent, Codec, decode_log}
use polymarket_indexer.Backfill.Rows.{EventRow}
use polymarket_indexer.Backfill.Group.{
  Grouping, no_rows, count_missing, push_row, to_row, add_decoded, add_log, group_logs,
}

-- The rows that a grouping holds for an event type.
unfoldable pub rows_for : String → Dict (List String × List EventRow) → List EventRow
rows_for name m = elim (lookup name m) [ none ↦ [] | some entry ↦ entry.1 ]

rows_for-push_row :
    (event_type name : String) (columns : List String) (row : EventRow)
    (m : Dict (List String × List EventRow))
    → rows_for name (push_row event_type columns row m)
      ≡ rows_for name m ++ (if str_eq event_type name then row ∷ [] else [])
unfolding rows_for push_row
rows_for-push_row event_type name columns row m = elim (Option-cases (lookup event_type m)) [
  | inl e ↦ ground (
    arith,
    lookup-insert event_type name (columns, row ∷ []) m,
    eq_iff event_type name,
    append-nil (rows_for name m),
  )
  | inr (entry, e) ↦ ground (
    arith,
    lookup-insert event_type name (entry.0, entry.1 ++ row ∷ []) m,
    eq_iff event_type name,
    append-nil (rows_for name m),
  )
]

module _ (c : Codec) where
  -- A log that has its metadata and decodes to an event of the type is a row of it.
  abbrev row_if : String → DecodedEvent → Log → List EventRow
  row_if name d log = elim log.block_number [
    | none ↦ []
    | some b ↦ elim log.transaction_hash [
      | none ↦ []
      | some h ↦ elim log.log_index [
        | none ↦ []
        | some i ↦ if str_eq d.event_type name then to_row c b h i d ∷ [] else []
      ]
    ]
  ]

  abbrev row_of : String → Log → List EventRow
  row_of name log = elim (decode_log c log) [
    | ok (some d) ↦ row_if name d log
    | ok none ↦ []
    | err e ↦ []
  ]

  -- The rows of an event type among the logs, in the order of the logs.
  pub rows_of : String → List Log → List EventRow
  rows_of name [] = []
  rows_of name (log ∷ logs) = row_of name log ++ rows_of name logs

  rows_for-add_decoded :
      (name : String) (d : DecodedEvent) (log : Log) (g : Grouping)
      → rows_for name (add_decoded c d log g).by_event
        ≡ rows_for name g.by_event ++ row_if name d log
  unfolding add_decoded count_missing
  rows_for-add_decoded name d log g = elim (Option-cases log.block_number) [
    | inl e ↦ ground (arith, append-nil (rows_for name g.by_event))
    | inr (b, eb) ↦ elim (Option-cases log.transaction_hash) [
      | inl e ↦ ground (arith, append-nil (rows_for name g.by_event))
      | inr (h, eh) ↦ elim (Option-cases log.log_index) [
        | inl e ↦ ground (arith, append-nil (rows_for name g.by_event))
        | inr (i, ei) ↦ ground (
          arith,
          rows_for-push_row d.event_type name (map (λ ((n, _) : String × String). n) d.columns)
              (to_row c b h i d) g.by_event,
        )
      ]
    ]
  ]

  rows_for-add_log :
      (name : String) (log : Log) (g : Grouping)
      → rows_for name (add_log c log g).by_event ≡ rows_for name g.by_event ++ row_of name log
  unfolding add_log
  rows_for-add_log name log g = elim (Result-cases (decode_log c log)) [
    | inl (none, e) ↦ ground (arith, append-nil (rows_for name g.by_event))
    | inl (some d, e) ↦ ground (arith, rows_for-add_decoded name d log g)
    | inr (message, e) ↦ ground (arith, append-nil (rows_for name g.by_event))
  ]

  rows_for-group_logs_onto :
      (name : String) (logs : List Log) (g : Grouping)
      → rows_for name (group_logs c logs g).by_event ≡ rows_for name g.by_event ++ rows_of name logs
  unfolding group_logs rows_of
  rows_for-group_logs_onto name [] g = sym (append-nil (rows_for name g.by_event))
  rows_for-group_logs_onto name (log ∷ logs) g =
      rows_for-group_logs_onto name logs (add_log c log g)
      ∙ ap (λ l. l ++ rows_of name logs) (rows_for-add_log name log g)
      ∙ append_assoc (rows_for name g.by_event) (row_of name log) (rows_of name logs)

  -- After the loop, the rows of an event type are those logs that decode to an event of that type
  -- and have a block number, a transaction hash and a log index, in the order of the logs.
  pub rows_for-group_logs :
      (name : String) (logs : List Log)
      → rows_for name (group_logs c logs no_rows).by_event ≡ rows_of name logs
  unfolding rows_for lookup
  rows_for-group_logs name logs = rows_for-group_logs_onto name logs no_rows
