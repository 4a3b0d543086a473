-- ===== src/Backfill/Group/Shape.antt =====
-- Every row has a value for each column of its event type, so the indexing of `row.values` in
-- `write_parquet_file` cannot panic.
use mathlib.Core.Path.{subst, subst₂}
use polymarket_indexer.Prelude.{
  Bool-cases, ℕ, String, ◌≡◌, refl, sym, ap, ◌∙◌, List, [], ◌∷◌, ◌++◌, none, some, arith, str_eq,
  eq_iff, Option-cases, inl, inr, length, length-map, All, All-append,
}
use polymarket_indexer.Prelude.Dict.{Dict, lookup, insert}
use polymarket_indexer.Prelude.Outcome.{ok, Result-cases}
use polymarket_indexer.Decode.{Log, DecodedEvent, Codec, decode_log}
use polymarket_indexer.Decode.Columns.{schema_of, column_names, column_names-eq-schema_of}
use polymarket_indexer.Decode.Dispatch.{decode_log-IsOfKind}
use polymarket_indexer.Backfill.Rows.{EventRow}
use polymarket_indexer.Backfill.Group.{
  Grouping, no_rows, count_missing, push_row, to_row, add_decoded, add_log, group_logs,
}

abbrev pub IsAligned : String → List String × List EventRow → Type 0
IsAligned name (columns, rows) =
    (columns ≡ schema_of name) × All (λ (r : EventRow). length r.values ≡ length columns) rows

-- Each group has the columns of its event type, and rows of that many values.
abbrev pub IsShaped : Dict (List String × List EventRow) → Type 0
IsShaped [] = Unit
IsShaped ((name, entry) ∷ m) = IsAligned name entry × IsShaped m

IsShaped-lookup :
    (name : String) (entry : List String × List EventRow) (m : Dict (List String × List EventRow))
    → IsShaped m
    → lookup name m ≡ some entry
    → IsAligned name entry
unfolding lookup
IsShaped-lookup name entry [] s h = cc
IsShaped-lookup name entry ((k, e) ∷ m) s h = elim (Bool-cases (str_eq k name)) [
  | inl same ↦ let p : e ≡ entry = ground arith in subst₂ IsAligned ((eq_iff k name).0 same) p s.0
  | inr differs ↦ IsShaped-lookup name entry m s.1 (ground arith)
]

IsShaped-insert :
    (name : String) (entry : List String × List EventRow) (m : Dict (List String × List EventRow))
    → IsAligned name entry
    → IsShaped m
    → IsShaped (insert name entry m)
unfolding insert
IsShaped-insert name entry [] a s = (a, tt)
IsShaped-insert name entry ((k, e) ∷ m) a s = elim (Bool-cases (str_eq k name)) [
  | inl same ↦ rw same (subst (λ n. IsAligned n entry) (sym ((eq_iff k name).0 same)) a, s.1)
  | inr differs ↦ rw differs (s.0, IsShaped-insert name entry m a s.1)
]

push_row-IsShaped :
    (name : String) (row : EventRow) (m : Dict (List String × List EventRow))
    → length row.values ≡ length (schema_of name)
    → IsShaped m
    → IsShaped (push_row name (schema_of name) row m)
unfolding push_row
push_row-IsShaped name row m h s = elim (Option-cases (lookup name m)) [
  | inl e ↦ rw (e, push_row) (IsShaped-insert name (schema_of name, row ∷ []) m (refl, (h, tt)) s)
  | inr ((columns, rows), e) ↦
      let (same, all) = IsShaped-lookup name (columns, rows) m s e in
      rw (e, push_row)
        (IsShaped-insert name (columns, rows ++ row ∷ []) m
          (same, All-append _ rows (row ∷ []) all (h ∙ ap length (sym same), tt)) s)
]

module _ (c : Codec) where
  length-values :
      (b h i : ℕ) (d : DecodedEvent) (log : Log)
      → decode_log c log ≡ ok (some d)
      → length (to_row c b h i d).values ≡ length (schema_of d.event_type)
  unfolding to_row
  length-values b h i d log e =
      let (k, _, kind) = decode_log-IsOfKind c log d e in
      length-map (λ ((_, v) : String × String). v) d.columns
      ∙ sym (length-map (λ ((n, _) : String × String). n) d.columns)
      ∙ ap length (column_names-eq-schema_of k d kind)

  push_decoded-IsShaped :
      (b h i : ℕ) (d : DecodedEvent) (log : Log) (m : Dict (List String × List EventRow))
      → decode_log c log ≡ ok (some d)
      → IsShaped m
      → IsShaped (push_row d.event_type (column_names d) (to_row c b h i d) m)
  push_decoded-IsShaped b h i d log m e s =
      let (k, _, kind) = decode_log-IsOfKind c log d e in
      subst (λ names. IsShaped (push_row d.event_type names (to_row c b h i d) m))
        (sym (column_names-eq-schema_of k d kind))
        (push_row-IsShaped d.event_type (to_row c b h i d) m (length-values b h i d log e) s)

  add_decoded-IsShaped :
      (d : DecodedEvent) (log : Log) (g : Grouping)
      → decode_log c log ≡ ok (some d)
      → IsShaped g.by_event
      → IsShaped (add_decoded c d log g).by_event
  unfolding add_decoded count_missing
  add_decoded-IsShaped d log g e s = elim (Option-cases log.block_number) [
    | inl eb ↦ rw (eb, add_decoded) s
    | inr (b, eb) ↦ elim (Option-cases log.transaction_hash) [
      | inl eh ↦ rw (eb, eh, add_decoded) s
      | inr (h, eh) ↦ elim (Option-cases log.log_index) [
        | inl ei ↦ rw (eb, eh, ei, add_decoded) s
        | inr (i, ei) ↦
            rw (eb, eh, ei, add_decoded) (push_decoded-IsShaped b h i d log g.by_event e s)
      ]
    ]
  ]

  add_log-IsShaped :
      (log : Log) (g : Grouping) → IsShaped g.by_event → IsShaped (add_log c log g).by_event
  unfolding add_log
  add_log-IsShaped log g s = elim (Result-cases (decode_log c log)) [
    | inl (none, e) ↦ rw (e, add_log) s
    | inl (some d, e) ↦ rw (e, add_log) (add_decoded-IsShaped d log g e s)
    | inr (message, e) ↦ rw (e, add_log) s
  ]

  group_logs-IsShaped_onto :
      (logs : List Log) (g : Grouping)
      → IsShaped g.by_event
      → IsShaped (group_logs c logs g).by_event
  unfolding group_logs
  group_logs-IsShaped_onto [] g s = s
  group_logs-IsShaped_onto (log ∷ logs) g s =
      group_logs-IsShaped_onto logs (add_log c log g) (add_log-IsShaped log g s)

  -- After the loop, each group has exactly the columns that belong to its event type, and each of
  -- its rows has as many values as there are columns.
  pub group_logs-IsShaped : (logs : List Log) → IsShaped (group_logs c logs no_rows).by_event
  group_logs-IsShaped logs = group_logs-IsShaped_onto logs no_rows tt
