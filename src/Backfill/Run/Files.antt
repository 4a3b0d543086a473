-- ===== src/Backfill/Run/Files.antt =====
-- The files of a run: those of the chunks that are finished, each chunk's own, and no others.
pub mod Leaving
pub mod Keeping
pub mod Whole
use mathlib.Core.List.{append-nil, append_assoc, map-append}
use mathlib.Core.Path.{subst, ap₂}
use polymarket_indexer.Prelude.{
  ℕ, ◌≤◌, String, ◌≡◌, ◌≢◌, refl, ap, sym, ◌∙◌, List, [], ◌∷◌, ◌++◌, arith, All, All-map, All-zip,
  All-remove, Distinct, Distinct-remove, length, inl, inr, Option-cases, List-cases, Bool-cases,
  ltb,
}
use polymarket_indexer.Prelude.Outcome.{Result-cases, ok}
use polymarket_indexer.Prelude.Exec.{Exec}
use polymarket_indexer.Contracts.{Address}
use polymarket_indexer.Storage.Arrow.{FilePath, Disk}
use polymarket_indexer.Storage.Parquet.Paths.{DiskLaws}
use polymarket_indexer.Decode.{Log, Codec}
use polymarket_indexer.Backfill.RateLimiter
use polymarket_indexer.Backfill.Group.{no_rows, group_logs}
use polymarket_indexer.Backfill.Chunk.{Progress, process_logs}
use polymarket_indexer.Backfill.Chunk.Outcomes.{process_logs-clean_iff, count-fetch_failed}
use polymarket_indexer.Backfill.Chunk.Described.{HoldsType, HoldsLogs}
use polymarket_indexer.Backfill.Chunk.Files.{IsFree, HoldsGroups, process_logs-Adds}
use polymarket_indexer.Backfill.Run.{
  BackfillConfig, waiting, fetching, fetched, Task, Pool, Event, starts, polls, limits, split_at,
  start_pool, start_next, poll_task, step, run_pool,
}
use polymarket_indexer.Backfill.Run.Schedule.{ranges_of, Stage-cases, split_at-append}
use polymarket_indexer.Backfill.Run.Complete.{
  IsFetched, IsSound, step-IsSound, start_pool-IsSound, no_length, All-split,
}
use polymarket_indexer.Backfill.Run.Verdict.{count-step-le, count-poll_task-le}

-- The chunks that are under way or still to come.
abbrev pub todo : {World : Type 0} → Pool World → List (ℕ × ℕ)
todo p = ranges_of p.running ++ p.pending

todo-middle :
    (before after : List Task) (t : Task) (pending : List (ℕ × ℕ))
    → ranges_of (before ++ t ∷ after) ++ pending
      ≡ ranges_of before ++ t.range ∷ (ranges_of after ++ pending)
todo-middle before after t pending = simp (map-append, append_assoc)

todo-without :
    (before after : List Task) (pending : List (ℕ × ℕ))
    → ranges_of (before ++ after) ++ pending ≡ ranges_of before ++ (ranges_of after ++ pending)
todo-without before after pending = simp (map-append, append_assoc)

-- What the program relies on of the provider: a request changes no file.
pub record ProviderLaws (D : Disk) (L : DiskLaws D)
    (get_logs : List Address → ℕ → ℕ → Exec D.World (List Log)) : Type 0 where
  pub closed-get_logs :
      (addresses : List Address) (from to : ℕ) (w : D.World)
      → L.closing.closed (get_logs addresses from to w).1 ≡ L.closing.closed w
  pub exists-get_logs :
      (addresses : List Address) (from to : ℕ) (w : D.World) (p : FilePath)
      → D.exists p (get_logs addresses from to w).1 ≡ D.exists p w

module _ (D : Disk) (L : DiskLaws D) (c : Codec) (output_dir : String)
    (get_logs : List Address → ℕ → ℕ → Exec D.World (List Log)) (addresses : List Address) where
  -- The file holds the rows of an event type among the logs that the provider returned for the
  -- chunk, all of them, sorted.
  pub record IsFileOf (range : ℕ × ℕ) (x : D.Writer) : Type 0 where
    pub logs : List Log
    pub asked : D.World
    pub fetch : (get_logs addresses range.0 range.1 asked).0 ≡ ok logs
    pub event_type : String
    pub held : HoldsType D L c output_dir range logs event_type x

  abbrev pub AreFilesOf : ℕ × ℕ → List D.Writer → Type 0
  AreFilesOf range = All (IsFileOf range)

  -- The provider returned logs for the chunk, none of those that were decoded lacked metadata, and
  -- the files hold all their rows: one file for each event type.
  pub record HoldsChunk (range : ℕ × ℕ) (files : List D.Writer) : Type 0 where
    pub logs : List Log
    pub asked : D.World
    pub fetch : (get_logs addresses range.0 range.1 asked).0 ≡ ok logs
    pub complete : (group_logs c logs no_rows).missing_metadata_count ≡ 0
    pub held : HoldsLogs D L c output_dir range logs files

  module _ (R : ℕ × ℕ → List D.Writer → Type 0) where
    -- The files are those of the chunks, in this order.
    abbrev pub Splits : List (ℕ × ℕ) → List D.Writer → Type 0
    Splits [] files = files ≡ []
    Splits (range ∷ ranges) files =
        (first : List D.Writer) × (rest : List D.Writer) × (files ≡ first ++ rest)
        × R range first
        × Splits ranges rest

    Splits-snoc :
        (ranges : List (ℕ × ℕ)) (range : ℕ × ℕ) (files more : List D.Writer)
        → Splits ranges files
        → R range more
        → Splits (ranges ++ range ∷ []) (files ++ more)
    Splits-snoc [] range files more h last =
        (more, [], ap (λ l. l ++ more) h ∙ sym (append-nil more), last, refl)
    Splits-snoc (r ∷ ranges) range files more (first, rest, e, now, h) last = (
      first,
      rest ++ more,
      ap (λ l. l ++ more) e ∙ append_assoc first rest more,
      now,
      Splits-snoc ranges range rest more h last,
    )

  module _ (before_run : List D.Writer) where
    -- The complete files are those from before the run, and those of the finished chunks, which are
    -- all there if nothing has failed. For the other chunks, no file is there.
    pub record Filed (p : Pool D.World) : Type 0 where
      pub files : List D.Writer
      pub sound : Splits AreFilesOf p.finished files
      pub whole : p.progress.failures ≡ [] → Splits HoldsChunk p.finished files
      pub grows : L.closing.closed p.progress.world ≡ before_run ++ files
      pub free : All (IsFree D output_dir p.progress.world) (todo p)
      pub distinct : Distinct (todo p)

    -- No chunk is finished, and no file changes.
    pub Filed-same :
        (p q : Pool D.World)
        → q.finished ≡ p.finished
        → todo q ≡ todo p
        → q.progress.failures ≡ p.progress.failures
        → L.closing.closed q.progress.world ≡ L.closing.closed p.progress.world
        → ((path : FilePath) → D.exists path q.progress.world ≡ D.exists path p.progress.world)
        → Filed p
        → Filed q
    Filed-same p q finished same failures closed exists h = record {
      files = h.files;
      sound = subst (λ l. Splits AreFilesOf l h.files) (sym finished) h.sound;
      whole = λ none.
          subst (λ l. Splits HoldsChunk l h.files) (sym finished) (h.whole (sym failures ∙ none));
      grows = closed ∙ h.grows;
      free = subst (All (IsFree D output_dir q.progress.world)) (sym same) (
          All-map (IsFree D output_dir p.progress.world) (IsFree D output_dir q.progress.world)
            (todo p) (λ r f et. exists _ ∙ f et) h.free);
      distinct = subst Distinct (sym same) h.distinct;
    }

    -- For a chunk that is under way, no file is there.
    pub Filed-IsFree :
        (before : List Task) (t : Task) (after : List Task) (p : Pool D.World)
        → p.running ≡ before ++ t ∷ after
        → Filed p
        → IsFree D output_dir p.progress.world t.range
    Filed-IsFree before t after p running h =
        let shape : todo p ≡ ranges_of before ++ t.range ∷ (ranges_of after ++ p.pending) =
          ap (λ ts. ranges_of ts ++ p.pending) running ∙ todo-middle before after t p.pending in
        (All-remove (IsFree D output_dir p.progress.world) (ranges_of before)
          (ranges_of after ++ p.pending) t.range
          (subst (All (IsFree D output_dir p.progress.world)) shape h.free)).0

    -- What a task leaves when it finishes: more files, which are all there if nothing has failed.
    pub record Leaves (range : ℕ × ℕ) (p q : Pool D.World) (more : List D.Writer) : Type 0 where
      pub finished : q.finished ≡ p.finished ++ range ∷ []
      pub sound : AreFilesOf range more
      pub whole : q.progress.failures ≡ [] → (p.progress.failures ≡ []) × HoldsChunk range more
      pub grows : L.closing.closed q.progress.world ≡ L.closing.closed p.progress.world ++ more
      pub spares :
          (r : ℕ × ℕ)
          → r ≢ range
          → IsFree D output_dir p.progress.world r
          → IsFree D output_dir q.progress.world r

    pub Filed-finish :
        (before : List Task) (t : Task) (after : List Task) (p q : Pool D.World)
        (more : List D.Writer)
        → p.running ≡ before ++ t ∷ after
        → q.running ≡ before ++ after
        → q.pending ≡ p.pending
        → Leaves t.range p q more
        → Filed p
        → Filed q
    Filed-finish before t after p q more running running' pending leaves h =
        let others = ranges_of after ++ p.pending in
        let shape : todo p ≡ ranges_of before ++ t.range ∷ others =
          ap (λ ts. ranges_of ts ++ p.pending) running ∙ todo-middle before after t p.pending in
        let shape' : todo q ≡ ranges_of before ++ others =
          ap₂ (λ ts l. ranges_of ts ++ l) running' pending ∙ todo-without before after p.pending in
        let (differ, distinct) =
          Distinct-remove (ranges_of before) others t.range (subst Distinct shape h.distinct) in
        let (_, free_others) =
          All-remove (IsFree D output_dir p.progress.world) (ranges_of before) others t.range
            (subst (All (IsFree D output_dir p.progress.world)) shape h.free) in
        record {
          files = h.files ++ more;
          sound =
              subst (λ l. Splits AreFilesOf l (h.files ++ more)) (sym leaves.finished)
                (Splits-snoc AreFilesOf p.finished t.range h.files more h.sound leaves.sound);
          whole = λ none.
              let (none_before, now) = leaves.whole none in
              subst (λ l. Splits HoldsChunk l (h.files ++ more)) (sym leaves.finished)
                (Splits-snoc HoldsChunk p.finished t.range h.files more (h.whole none_before) now);
          grows = leaves.grows ∙ ap (λ l. l ++ more) h.grows ∙ append_assoc before_run h.files more;
          free = subst (All (IsFree D output_dir q.progress.world)) (sym shape') (
              All-zip (λ r. r ≢ t.range) (IsFree D output_dir p.progress.world)
                (IsFree D output_dir q.progress.world) (ranges_of before ++ others) leaves.spares
                differ free_others);
          distinct = subst Distinct (sym shape') distinct;
        }
