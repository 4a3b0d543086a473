-- ===== src/Backfill/Group/Distinct.antt =====
-- What holds of the groups of a chunk as long as rows are pushed: a grouping holds each event type
-- once, and a group has rows.
use polymarket_indexer.Prelude.{
  String, ◌≢◌, List, [], ◌∷◌, ◌++◌, none, some, str_eq, Bool-cases, Option-cases, inl, inr, All,
}
use polymarket_indexer.Prelude.Dict.{Dict, NodupKeys, lookup, insert, insert-NodupKeys}
use polymarket_indexer.Prelude.Outcome.{Result-cases}
use polymarket_indexer.Decode.{Log, DecodedEvent, Codec, decode_log}
use polymarket_indexer.Backfill.Rows.{EventRow}
use polymarket_indexer.Backfill.Group.{
  Grouping, no_rows, count_missing, push_row, add_decoded, add_log, group_logs,
}

abbrev pub Groups : Type 0
Groups = Dict (List String × List EventRow)

-- What every push keeps, the loop keeps.
module _ {ℓ} (P : Groups → Type ℓ)
    (kept : (event_type : String) (columns : List String) (row : EventRow) (m : Groups)
      → P m
      → P (push_row event_type columns row m))
    (c : Codec) where
  add_decoded-keeps :
      (decoded : DecodedEvent) (log : Log) (g : Grouping)
      → P g.by_event
      → P (add_decoded c decoded log g).by_event
  unfolding add_decoded count_missing
  add_decoded-keeps decoded log g h = elim (Option-cases log.block_number) [
    | inl eb ↦ rw (eb, add_decoded) h
    | inr (b, eb) ↦ elim (Option-cases log.transaction_hash) [
      | inl et ↦ rw (eb, et, add_decoded) h
      | inr (t, et) ↦ elim (Option-cases log.log_index) [
        | inl ei ↦ rw (eb, et, ei, add_decoded) h
        | inr (i, ei) ↦ rw (eb, et, ei, add_decoded) (kept _ _ _ g.by_event h)
      ]
    ]
  ]

  add_log-keeps : (log : Log) (g : Grouping) → P g.by_event → P (add_log c log g).by_event
  unfolding add_log
  add_log-keeps log g h = elim (Result-cases (decode_log c log)) [
    | inl (none, e) ↦ rw (e, add_log) h
    | inl (some d, e) ↦ rw (e, add_log) (add_decoded-keeps d log g h)
    | inr (message, e) ↦ rw (e, add_log) h
  ]

  group_logs-keeps :
      (logs : List Log) (g : Grouping) → P g.by_event → P (group_logs c logs g).by_event
  unfolding group_logs
  group_logs-keeps [] g h = h
  group_logs-keeps (log ∷ logs) g h =
      group_logs-keeps logs (add_log c log g) (add_log-keeps log g h)

push_row-NodupKeys :
    (event_type : String) (columns : List String) (row : EventRow) (m : Groups)
    → NodupKeys m
    → NodupKeys (push_row event_type columns row m)
unfolding push_row
push_row-NodupKeys event_type columns row m u = elim (Option-cases (lookup event_type m)) [
  | inl e ↦ rw (e, push_row) (insert-NodupKeys event_type _ m u)
  | inr (entry, e) ↦ rw (e, push_row) (insert-NodupKeys event_type _ m u)
]

abbrev pub HasRows : Groups → Type 0
HasRows m = All (λ (_, (_, rows)). rows ≢ []) m

insert-HasRows :
    (event_type : String) (columns : List String) (rows : List EventRow) (m : Groups)
    → rows ≢ []
    → HasRows m
    → HasRows (insert event_type (columns, rows) m)
unfolding insert
insert-HasRows event_type columns rows [] some_row h = (some_row, tt)
insert-HasRows event_type columns rows ((k, v) ∷ m) some_row h =
    elim (Bool-cases (str_eq k event_type)) [
      | inl same ↦ rw same (some_row, h.1)
      | inr differs ↦ rw differs (h.0, insert-HasRows event_type columns rows m some_row h.1)
    ]

snoc_ne_nil : {A : Type 0} (xs : List A) (x : A) → xs ++ x ∷ [] ≢ []
snoc_ne_nil [] x h = cc
snoc_ne_nil (y ∷ ys) x h = cc

push_row-HasRows :
    (event_type : String) (columns : List String) (row : EventRow) (m : Groups)
    → HasRows m
    → HasRows (push_row event_type columns row m)
unfolding push_row
push_row-HasRows event_type columns row m h = elim (Option-cases (lookup event_type m)) [
  | inl e ↦ rw (e, push_row) (insert-HasRows event_type columns (row ∷ []) m (λ e. cc) h)
  | inr (entry, e) ↦
      rw (e, push_row)
        (insert-HasRows event_type entry.0 (entry.1 ++ row ∷ []) m (snoc_ne_nil entry.1 row) h)
]

module _ (c : Codec) (logs : List Log) where
  pub group_logs-NodupKeys : NodupKeys (group_logs c logs no_rows).by_event
  group_logs-NodupKeys = group_logs-keeps NodupKeys push_row-NodupKeys c logs no_rows tt

  pub group_logs-HasRows : HasRows (group_logs c logs no_rows).by_event
  group_logs-HasRows = group_logs-keeps HasRows push_row-HasRows c logs no_rows tt
