-- ===== src/Backfill/Chunk/Described.antt =====
-- The files of a chunk, described by its logs alone.
use mathlib.Core.List.{Memᴰ}
use mathlib.Core.Path.{subst}
use polymarket_indexer.Prelude.{
  ℕ, String, ◌≡◌, ◌≢◌, inl, inr, sym, none, some, List, [], ◌∷◌, arith, str_eq, eq_iff, Bool-cases,
  All, Distinct,
}
use polymarket_indexer.Prelude.Dict.{Dict, NodupKeys, lookup, keys}
use polymarket_indexer.Storage.Arrow.{Disk}
use polymarket_indexer.Storage.Parquet.Paths.{DiskLaws}
use polymarket_indexer.Decode.{Log, Codec}
use polymarket_indexer.Decode.Columns.{schema_of}
use polymarket_indexer.Backfill.Rows.{EventRow, sort_rows}
use polymarket_indexer.Backfill.Group.{no_rows, group_logs}
use polymarket_indexer.Backfill.Group.Contents.{rows_of}
use polymarket_indexer.Backfill.Group.Distinct.{Groups, group_logs-NodupKeys}
use polymarket_indexer.Backfill.Group.Described.{
  IsGroup, AreGroups, group_logs-AreGroups, lookup-group_logs,
}
use polymarket_indexer.Backfill.File.Writing.{chunk_path, HoldsRows}
use polymarket_indexer.Backfill.Chunk.Files.{HoldsGroups, IsOfGroup}

module _ {V : Type 0} where
  lookup-mem : (k : String) (v : V) (m : Dict V) → lookup k m ≡ some v → Memᴰ k (keys m)
  unfolding lookup keys
  lookup-mem k v [] e = cc
  lookup-mem k v ((j, w) ∷ m) e = elim (Bool-cases (str_eq j k)) [
    | inl same ↦ Memᴰ.head (sym ((eq_iff j k).0 same))
    | inr differs ↦ Memᴰ.tail (lookup-mem k v m (ground arith))
  ]

  keys-absent : (k : String) (m : Dict V) → lookup k m ≡ none → All (λ j. j ≢ k) (keys m)
  unfolding lookup keys
  keys-absent k [] e = tt
  keys-absent k ((j, w) ∷ m) e = elim (Bool-cases (str_eq j k)) [
    | inl same ↦ ground arith
    | inr differs ↦ (ground (arith, eq_iff j k), keys-absent k m (ground arith))
  ]

  keys-Distinct : (m : Dict V) → NodupKeys m → Distinct (keys m)
  unfolding keys
  keys-Distinct [] u = tt
  keys-Distinct ((k, v) ∷ m) u = (keys-absent k m u.0, keys-Distinct m u.1)

module _ (D : Disk) (L : DiskLaws D) (c : Codec) (output_dir : String) (range : ℕ × ℕ)
    (logs : List Log) where
  -- The file is under the path of the chunk and the event type, and holds one batch, made of the
  -- rows of the event type among the logs, sorted.
  abbrev pub HoldsType : String → D.Writer → Type 0
  HoldsType event_type =
      HoldsRows D L (chunk_path output_dir event_type range.0 range.1) event_type
        (schema_of event_type) (sort_rows (rows_of c event_type logs))

  abbrev pub HoldsTypes : List String → List D.Writer → Type 0
  HoldsTypes [] [] = Unit
  HoldsTypes (event_type ∷ event_types) (x ∷ xs) =
      HoldsType event_type x × HoldsTypes event_types xs
  HoldsTypes _ _ = ⊥

  -- One file for each event type that has rows among the logs, and no other file.
  pub record HoldsLogs (files : List D.Writer) : Type 0 where
    pub event_types : List String
    pub distinct : Distinct event_types
    pub inhabited : All (λ event_type. rows_of c event_type logs ≢ []) event_types
    pub complete :
        (event_type : String) → rows_of c event_type logs ≢ [] → Memᴰ event_type event_types
    pub held : HoldsTypes event_types files

  HoldsRows-HoldsType :
      (event_type : String) (columns : List String) (rows : List EventRow) (x : D.Writer)
      → IsGroup c logs event_type columns rows
      → HoldsRows D L
          (chunk_path output_dir event_type range.0 range.1)
          event_type
          columns
          (sort_rows rows)
          x
      → HoldsType event_type x
  HoldsRows-HoldsType event_type columns rows x group =
      subst
        (λ (g : List String × List EventRow).
          HoldsRows D L (chunk_path output_dir event_type range.0 range.1) event_type g.0
            (sort_rows g.1) x)
        (λ i. (group.named i, group.filled i))

  HoldsGroups-HoldsTypes :
      (m : Groups) (files : List D.Writer)
      → AreGroups c logs m
      → HoldsGroups D L c output_dir range.0 range.1 m files
      → HoldsTypes (keys m) files
  unfolding keys
  HoldsGroups-HoldsTypes [] [] groups h = tt
  HoldsGroups-HoldsTypes [] (x ∷ xs) groups h = h
  HoldsGroups-HoldsTypes (g ∷ m) [] groups h = h
  HoldsGroups-HoldsTypes ((k, (columns, rows)) ∷ m) (x ∷ xs) groups h =
      (HoldsRows-HoldsType k columns rows x groups.0 h.0, HoldsGroups-HoldsTypes m xs groups.1 h.1)

  AreGroups-inhabited :
      (m : Groups)
      → AreGroups c logs m
      → All (λ event_type. rows_of c event_type logs ≢ []) (keys m)
  unfolding keys
  AreGroups-inhabited [] groups = tt
  AreGroups-inhabited ((k, (columns, rows)) ∷ m) groups =
      (subst (λ l. l ≢ []) groups.0.filled groups.0.inhabited, AreGroups-inhabited m groups.1)

  pub HoldsGroups-HoldsLogs :
      (files : List D.Writer)
      → HoldsGroups D L c output_dir range.0 range.1 (group_logs c logs no_rows).by_event files
      → HoldsLogs files
  HoldsGroups-HoldsLogs files h =
      let m = (group_logs c logs no_rows).by_event in
      let groups = group_logs-AreGroups c logs in
      record {
        event_types = keys m;
        distinct = keys-Distinct m (group_logs-NodupKeys c logs);
        inhabited = AreGroups-inhabited m groups;
        complete = λ event_type some_row.
            let (columns, found) = lookup-group_logs c logs event_type some_row in
            lookup-mem event_type _ m found;
        held = HoldsGroups-HoldsTypes m files groups h;
      }

  pub IsOfGroup-HoldsType :
      (m : Groups) (x : D.Writer)
      → AreGroups c logs m
      → IsOfGroup D L c output_dir range.0 range.1 m x
      → (event_type : String) × HoldsType event_type x
  IsOfGroup-HoldsType [] x groups h = absurd h
  IsOfGroup-HoldsType ((k, (columns, rows)) ∷ m) x groups (inl h) =
      (k, HoldsRows-HoldsType k columns rows x groups.0 h)
  IsOfGroup-HoldsType ((k, (columns, rows)) ∷ m) x groups (inr h) =
      IsOfGroup-HoldsType m x groups.1 h
