-- ===== src/Backfill/Chunk/Files.antt =====
-- The files of a chunk whose writes all returned: one for each event type, under its own path.
use mathlib.Core.List.{append-nil, append_assoc}
use mathlib.Core.Path.{subst}
use polymarket_indexer.Prelude.{
  ℕ, String, ◌≡◌, ◌≢◌, ap, sym, ◌∙◌, false, none, List, [], ◌∷◌, ◌++◌, arith, str_eq, eq_iff,
  Bool-cases, inl, inr, ◌⊎◌, All, All-map,
}
use polymarket_indexer.Prelude.Dict.{Dict, NodupKeys, lookup}
use polymarket_indexer.Decode.{Log, Codec}
use polymarket_indexer.Storage.Arrow.{Disk}
use polymarket_indexer.Storage.Parquet.Paths.{DiskLaws}
use polymarket_indexer.Backfill.Rows.{EventRow, sort_rows}
use polymarket_indexer.Backfill.Group.{Grouping, no_rows, group_logs}
use polymarket_indexer.Backfill.Group.Distinct.{group_logs-NodupKeys}
use polymarket_indexer.Backfill.File.{write_parquet_file, chunk_file_name}
use polymarket_indexer.Backfill.File.Names.{chunk_file_name-injective}
use polymarket_indexer.Backfill.File.Writing.{chunk_path, HoldsRows}
use polymarket_indexer.Backfill.File.Sparing.{write_parquet_file-Keeps}
use polymarket_indexer.Backfill.File.Failing.{write_parquet_file-cases}
use polymarket_indexer.Backfill.Chunk.{
  Progress, push_failure, write_group, write_groups, report_missing, process_logs,
}
use polymarket_indexer.Backfill.Chunk.Outcomes.{WroteAll, write_group-cases}

chunk_path-injective :
    (output_dir et et' : String) (start end start' end' : ℕ)
    → chunk_path output_dir et start end ≡ chunk_path output_dir et' start' end'
    → (et ≡ et') × (start ≡ start') × (end ≡ end')
chunk_path-injective output_dir et et' start end start' end' h =
    let names : chunk_file_name start end ≡ chunk_file_name start' end' = cc in
    let (s, e) = chunk_file_name-injective start end start' end' names in (cc, s, e)

-- No file is there for the chunk, of whatever event type.
abbrev pub IsFree : (D : Disk) → String → D.World → ℕ × ℕ → Type 0
IsFree D output_dir w range =
    (event_type : String) → D.exists (chunk_path output_dir event_type range.0 range.1) w ≡ false

module _ (D : Disk) (L : DiskLaws D) (c : Codec) (output_dir : String) where
  module _ (chunk_start chunk_end : ℕ) where
    abbrev path : String → List String
    path event_type = chunk_path output_dir event_type chunk_start chunk_end

    -- One file for each group, in order, which holds its rows, sorted.
    abbrev pub HoldsGroups : Dict (List String × List EventRow) → List D.Writer → Type 0
    HoldsGroups [] [] = Unit
    HoldsGroups ((event_type, (columns, rows)) ∷ m) (x ∷ xs) =
        HoldsRows D L (path event_type) event_type columns (sort_rows rows) x × HoldsGroups m xs
    HoldsGroups _ _ = ⊥

    -- The file holds the rows of one of the groups, sorted.
    abbrev pub IsOfGroup : Dict (List String × List EventRow) → D.Writer → Type 0
    IsOfGroup [] x = ⊥
    IsOfGroup ((event_type, (columns, rows)) ∷ m) x =
        HoldsRows D L (path event_type) event_type columns (sort_rows rows) x ⊎ IsOfGroup m x

    abbrev Unwritten : Dict (List String × List EventRow) → D.World → Type 0
    Unwritten [] w = Unit
    Unwritten ((event_type, _) ∷ m) w = (D.exists (path event_type) w ≡ false) × Unwritten m w

    IsFree-Unwritten :
        (m : Dict (List String × List EventRow)) (w : D.World)
        → IsFree D output_dir w (chunk_start, chunk_end)
        → Unwritten m w
    IsFree-Unwritten [] w free = tt
    IsFree-Unwritten ((event_type, _) ∷ m) w free = (free event_type, IsFree-Unwritten m w free)

    write_parquet_file-Unwritten :
        (k : String) (columns : List String) (rows : List EventRow)
        (m : Dict (List String × List EventRow)) (w : D.World)
        → lookup k m ≡ none
        → Unwritten m w
        → Unwritten m (write_parquet_file D output_dir k columns rows chunk_start chunk_end w).1
    unfolding lookup
    write_parquet_file-Unwritten k columns rows [] w absent free = tt
    write_parquet_file-Unwritten k columns rows ((j, v) ∷ m) w absent free =
        elim (Bool-cases (str_eq j k)) [
          | inl same ↦ ground arith
          | inr differs ↦ (
            write_parquet_file-Keeps D L (path j) (omega arith) output_dir k columns rows
                chunk_start chunk_end
                (λ e.
                  let names =
                    chunk_path-injective output_dir j k chunk_start chunk_end chunk_start chunk_end
                      e in
                  ground (arith, eq_iff j k, names.0))
                w free.0,
            write_parquet_file-Unwritten k columns rows m w (ground arith) free.1,
          )
        ]

    write_parquet_file-IsFree :
        (k : String) (columns : List String) (rows : List EventRow) (range : ℕ × ℕ) (w : D.World)
        → range ≢ (chunk_start, chunk_end)
        → IsFree D output_dir w range
        → IsFree D output_dir
            (write_parquet_file D output_dir k columns rows chunk_start chunk_end w).1
            range
    write_parquet_file-IsFree k columns rows range w other free event_type =
        write_parquet_file-Keeps D L (chunk_path output_dir event_type range.0 range.1)
          (omega arith) output_dir k columns rows chunk_start chunk_end
          (λ e.
            let (_, s, t) =
              chunk_path-injective output_dir event_type k range.0 range.1 chunk_start chunk_end
                e in
            other (λ i. (s i, t i)))
          w (free event_type)

    -- From one world to another, files have been completed, each of which holds the rows of one
    -- group, and if every write returned, one for each group. No other chunk has lost a path.
    pub record Adds (m : Dict (List String × List EventRow)) (w w' : D.World) : Type 0 where
      pub files : List D.Writer
      pub grows : L.closing.closed w' ≡ L.closing.closed w ++ files
      pub sound : All (IsOfGroup m) files
      pub held : WroteAll D c output_dir chunk_start chunk_end m w → HoldsGroups m files
      pub spares :
          (range : ℕ × ℕ)
          → range ≢ (chunk_start, chunk_end)
          → IsFree D output_dir w range
          → IsFree D output_dir w' range

    -- One round of the loop, and those that follow it.
    write_group-Adds :
        (k : String) (columns : List String) (rows : List EventRow)
        (m : Dict (List String × List EventRow)) (w w' : D.World)
        → D.exists (path k) w ≡ false
        → Adds m
            (write_parquet_file D output_dir k columns (sort_rows rows) chunk_start chunk_end w).1
            w'
        → Adds ((k, (columns, rows)) ∷ m) w w'
    write_group-Adds k columns rows m w w' free rest =
        let spares : (range : ℕ × ℕ)
            → range ≢ (chunk_start, chunk_end)
            → IsFree D output_dir w range
            → IsFree D output_dir w' range =
          λ range other before.
            rest.spares range other
              (write_parquet_file-IsFree k columns (sort_rows rows) range w other before) in
        elim (write_parquet_file-cases D L output_dir k columns (sort_rows rows) chunk_start
          chunk_end w free) [
            | inl (returned, first) ↦ record {
              files = first.writer ∷ rest.files;
              grows =
                  rest.grows
                  ∙ ap (λ l. l ++ rest.files) first.grows
                  ∙ append_assoc (L.closing.closed w) (first.writer ∷ []) rest.files;
              sound = (
                inl first.rows_in_it,
                All-map (IsOfGroup m) (IsOfGroup ((k, (columns, rows)) ∷ m)) rest.files
                    (λ x h. inr h) rest.sound,
              );
              held = λ wrote. (first.rows_in_it, rest.held wrote.1);
              spares = spares;
            }
            | inr (message, failed, same) ↦ record {
              files = rest.files;
              grows = rest.grows ∙ ap (λ l. l ++ rest.files) same;
              sound =
                  All-map (IsOfGroup m) (IsOfGroup ((k, (columns, rows)) ∷ m)) rest.files
                    (λ x h. inr h) rest.sound;
              held = λ wrote. absurd (cc (failed, wrote.0));
              spares = spares;
            }
          ]

    write_groups-Adds :
        (m : Dict (List String × List EventRow)) (p : Progress D.World)
        → NodupKeys m
        → Unwritten m p.world
        → Adds m p.world (write_groups D c output_dir chunk_start chunk_end m p).world
    unfolding write_groups
    write_groups-Adds [] p distinct free = record {
      files = [];
      grows = sym (append-nil _);
      sound = tt;
      held = λ wrote. tt;
      spares = λ range other before. before;
    }
    write_groups-Adds ((k, (columns, rows)) ∷ m) p distinct free =
        let q = write_group D c output_dir chunk_start chunk_end k columns rows p in
        let world = (write_group-cases D c output_dir chunk_start chunk_end k columns rows p).0 in
        let end = (write_groups D c output_dir chunk_start chunk_end m q).world in
        let rest : Adds m q.world end = write_groups-Adds m q distinct.1 (
          subst (Unwritten m) (sym world) (
            write_parquet_file-Unwritten k columns (sort_rows rows) m p.world distinct.0 free.1)) in
        write_group-Adds k columns rows m p.world end free.0 (subst (λ w. Adds m w end) world rest)

    world-report_missing :
        (n : ℕ) (p : Progress D.World)
        → (report_missing D c output_dir chunk_start chunk_end n p).world ≡ p.world
    unfolding report_missing push_failure
    world-report_missing n p = ground arith

    pub process_logs-Adds :
        (logs : List Log) (p : Progress D.World)
        → IsFree D output_dir p.world (chunk_start, chunk_end)
        → Adds
            (group_logs c logs no_rows).by_event
            p.world
            (process_logs D c output_dir chunk_start chunk_end logs p).world
    unfolding process_logs
    process_logs-Adds logs p free =
        let g : Grouping = group_logs c logs no_rows in
        subst (Adds g.by_event p.world) (sym (world-report_missing g.missing_metadata_count _)) (
          write_groups-Adds g.by_event p (group_logs-NodupKeys c logs)
            (IsFree-Unwritten g.by_event p.world free))
