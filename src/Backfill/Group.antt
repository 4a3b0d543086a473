-- ===== src/Backfill/Group.antt =====
-- The first loop of a chunk in src/backfill.rs: the logs are decoded and grouped by event type.
pub mod Contents
pub mod Shape
pub mod Counting
pub mod Distinct
pub mod Described
use polymarket_indexer.Prelude.{
  ℕ, String, List, [], ◌∷◌, ◌++◌, map, Option, none, some, saturating_add64,
}
use polymarket_indexer.Prelude.Dict.{Dict, lookup, insert}
use polymarket_indexer.Prelude.Outcome.{ok, err}
use polymarket_indexer.Decode.{Log, DecodedEvent, Codec, decode_log}
use polymarket_indexer.Backfill.Rows.{EventRow}

-- For each event type, the names of its columns and its rows so far.
pub record Grouping : Type 0 where
  pub by_event : Dict (List String × List EventRow)
  pub missing_metadata_count : ℕ

abbrev pub no_rows : Grouping
no_rows = record { by_event = []; missing_metadata_count = 0 }

unfoldable pub count_missing : Grouping → Grouping
count_missing g = record g { missing_metadata_count = saturating_add64 g.missing_metadata_count 1 }

-- `entry(event_type).or_insert_with(..)`, and `entry.1.push(row)`.
unfoldable pub push_row :
    String
    → List String
    → EventRow
    → Dict (List String × List EventRow)
    → Dict (List String × List EventRow)
push_row event_type columns row m = elim (lookup event_type m) [
  | none ↦ insert event_type (columns, row ∷ []) m
  | some entry ↦ insert event_type (entry.0, entry.1 ++ row ∷ []) m
]

module _ (c : Codec) where
  unfoldable pub to_row : ℕ → ℕ → ℕ → DecodedEvent → EventRow
  to_row block_number tx_hash log_index decoded = record {
    block_number = block_number;
    tx_hash = c.hash_text tx_hash;
    log_index = log_index;
    values = map (λ (_, value). value) decoded.columns;
  }

  -- The three `let Some(..) else`, and the push.
  unfoldable pub add_decoded : DecodedEvent → Log → Grouping → Grouping
  add_decoded decoded log g = elim log.block_number [
    | none ↦ count_missing g
    | some block_number ↦ elim log.transaction_hash [
      | none ↦ count_missing g
      | some tx_hash ↦ elim log.log_index [
        | none ↦ count_missing g
        | some log_index ↦
            let names = map (λ ((name, _) : String × String). name) decoded.columns in
            let row = to_row block_number tx_hash log_index decoded in
            record g { by_event = push_row decoded.event_type names row g.by_event }
      ]
    ]
  ]

  unfoldable pub add_log : Log → Grouping → Grouping
  add_log log g = elim (decode_log c log) [
    | ok (some decoded) ↦ add_decoded decoded log g
    | ok none ↦ g
    | err error ↦ g
  ]

  unfoldable pub group_logs : List Log → Grouping → Grouping
  group_logs [] g = g
  group_logs (log ∷ logs) g = group_logs logs (add_log log g)
