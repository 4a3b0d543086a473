-- ===== src/Backfill/Run/Files/Whole.antt =====
-- What `Ok` says of the disk: the files of a backfill are those of its chunks, and nothing else has
-- changed.
use mathlib.Core.List.{Perm, append-nil}
use mathlib.Core.Path.{subst}
use polymarket_indexer.Prelude.{
  ℕ, ◌+◌, ◌≤◌, ◌≡◌, refl, sym, ◌∙◌, some, List, [], ◌++◌, All, Distinct, u64_mod, inl, inr,
}
use polymarket_indexer.Prelude.Outcome.{Result-cases, ok}
use polymarket_indexer.Prelude.Exec.{Exec}
use polymarket_indexer.Contracts.{Address}
use polymarket_indexer.Storage.Arrow.{Disk}
use polymarket_indexer.Storage.Parquet.Paths.{DiskLaws}
use polymarket_indexer.Decode.{Log, Codec}
use polymarket_indexer.Backfill.Chunks.{chunk_ranges}
use polymarket_indexer.Backfill.Chunks.Cover.{chunk_ranges-Tiles}
use polymarket_indexer.Backfill.Chunks.Distinct.{Tiles-Distinct}
use polymarket_indexer.Backfill.Chunk.Files.{IsFree}
use polymarket_indexer.Backfill.Provider.{Http, Provider}
use polymarket_indexer.Backfill.Run.{
  BackfillConfig, Pool, Event, start_pool, run_pool, finish_run, prepare, run,
}
use polymarket_indexer.Backfill.Run.Verdict.{conclude-ok_iff, check_config-ok_iff}
use polymarket_indexer.Backfill.Run.Schedule.{run_pool-start_pool-IsOrderly}
use polymarket_indexer.Backfill.Run.Complete.{start_pool-IsSound}
use polymarket_indexer.Backfill.Run.Coverage.{
  drained, chunks-drained, prepare-check_config, run-eq-finish_run, run-eq-err,
}
use polymarket_indexer.Backfill.Run.Files.{ProviderLaws, HoldsChunk, AreFilesOf, Splits, Filed}
use polymarket_indexer.Backfill.Run.Files.Keeping.{run_pool-Filed}

module _ (D : Disk) (L : DiskLaws D) (c : Codec)
    (get_logs : List Address → ℕ → ℕ → Exec D.World (List Log))
    (provider : ProviderLaws D L get_logs) (config : BackfillConfig) (world : D.World)
    (events : List Event) where
  -- The run at its end.
  abbrev pub end_of : List Address → List (ℕ × ℕ) → Pool D.World
  end_of addresses ranges =
      run_pool D c config.output_dir get_logs addresses config.parallelism events
        (start_pool config ranges world)

  start_pool-Filed :
      (addresses : List Address) (ranges : List (ℕ × ℕ))
      → All (IsFree D config.output_dir world) ranges
      → Distinct ranges
      → Filed D L c config.output_dir get_logs addresses
          (L.closing.closed world)
          (start_pool config ranges world)
  unfolding start_pool
  start_pool-Filed addresses ranges free distinct = record {
    files = [];
    sound = refl;
    whole = λ none. refl;
    grows = sym (append-nil _);
    free = free;
    distinct = distinct;
  }

  end_of-Filed :
      (addresses : List Address) (ranges : List (ℕ × ℕ))
      → All (IsFree D config.output_dir world) ranges
      → Distinct ranges
      → Filed D L c config.output_dir get_logs addresses
          (L.closing.closed world)
          (end_of addresses ranges)
  end_of-Filed addresses ranges free distinct =
      run_pool-Filed D L c config.output_dir get_logs addresses provider (L.closing.closed world)
        config.parallelism events (start_pool config ranges world)
        (start_pool-IsSound D c config.output_dir get_logs addresses config.parallelism config
          ranges world)
        (start_pool-Filed addresses ranges free distinct)

  -- The chunks, in the order in which they were finished, and the files with their rows.
  pub record HoldsRun (addresses : List Address) (ranges : List (ℕ × ℕ)) : Type 0 where
    pub order : List (ℕ × ℕ)
    pub all : Perm order ranges
    pub files : List D.Writer
    pub held :
        Splits D L c config.output_dir get_logs addresses
          (HoldsChunk D L c config.output_dir get_logs addresses)
          order
          files
    pub grows :
        L.closing.closed (end_of addresses ranges).progress.world ≡ L.closing.closed world ++ files

  finish_run-HoldsRun :
      (addresses : List Address) (ranges : List (ℕ × ℕ))
      → All (IsFree D config.output_dir world) ranges
      → Distinct ranges
      → finish_run D c config.output_dir get_logs addresses config.parallelism
          (start_pool config ranges world)
          events
        ≡ some (ok tt)
      → HoldsRun addresses ranges
  unfolding finish_run
  finish_run-HoldsRun addresses ranges free distinct e =
      let p = end_of addresses ranges in
      let (pending, running, done) = drained p e in
      let filed = end_of-Filed addresses ranges free distinct in
      let orderly =
        run_pool-start_pool-IsOrderly D c config.output_dir get_logs addresses config.parallelism
          ranges config world events in
      record {
        order = p.finished;
        all = subst (λ l. Perm l ranges) (chunks-drained p pending running) orderly.conserved;
        files = filed.files;
        held = filed.whole ((conclude-ok_iff _).0 done);
        grows = filed.grows;
      }

module _ (H : Http) (D : Disk) (L : DiskLaws D) (c : Codec)
    (get_logs : Provider H → List Address → ℕ → ℕ → Exec D.World (List Log))
    (quiet : (provider : Provider H) → ProviderLaws D L (get_logs provider))
    (config : BackfillConfig) (world : D.World) (events : List Event) where
  module _ (ranges : List (ℕ × ℕ))
      (cut : chunk_ranges config.start_block config.end_block config.chunk_size_by_block_number
        ≡ some ranges)
      (fits : config.end_block + config.chunk_size_by_block_number ≤ u64_mod)
      (free : All (IsFree D config.output_dir world) ranges) where
    prepare-Distinct : (r : Provider H × List Address) → prepare H config ≡ ok r → Distinct ranges
    prepare-Distinct r prepared =
        let (ordered, positive_size, _, _) =
          (check_config-ok_iff config).0 (prepare-check_config H config r prepared) in
        let (ranges', cut', tiles) =
          chunk_ranges-Tiles config.start_block config.end_block config.chunk_size_by_block_number
            ordered positive_size fits in
        let same : ranges' ≡ ranges = cc in
        subst Distinct same (
          Tiles-Distinct config.start_block config.end_block config.chunk_size_by_block_number
            ranges' tiles)

    -- On a range whose end is at least one chunk below 2^64, with no file under a path of its
    -- chunks before the run, and a provider whose requests change no file: at every moment of a
    -- run, whatever has failed, the complete files are those from before, followed by those of the
    -- finished chunks, chunk by chunk. Each of these is under the path of its chunk and of an event
    -- type, and holds one batch, made of all the rows of that event type among logs that the
    -- provider returned for the chunk, sorted.
    pub end_of-Splits :
        (provider : Provider H) (addresses : List Address)
        → prepare H config ≡ ok (provider, addresses)
        → (files : List D.Writer) × Splits D L c config.output_dir
            (get_logs provider)
            addresses
            (AreFilesOf D L c config.output_dir (get_logs provider) addresses)
            (end_of D L c
              (get_logs provider)
              (quiet provider)
              config
              world
              events
              addresses
              ranges).finished
            files
          × (L.closing.closed
                (end_of D L c
                  (get_logs provider)
                  (quiet provider)
                  config
                  world
                  events
                  addresses
                  ranges).progress.world
              ≡ L.closing.closed world ++ files)
    end_of-Splits provider addresses prepared =
        let filed =
          end_of-Filed D L c (get_logs provider) (quiet provider) config world events addresses
            ranges free (prepare-Distinct (provider, addresses) prepared) in
        (filed.files, filed.sound, filed.grows)

    -- What a run that returns `Ok` leaves.
    pub run-HoldsRun :
        run H D c get_logs config events world ≡ some (ok tt)
        → (provider : Provider H) × (addresses : List Address) × (prepare H config
            ≡ ok (provider, addresses))
          × HoldsRun D L c (get_logs provider) (quiet provider) config world events addresses ranges
    run-HoldsRun e = elim (Result-cases (prepare H config)) [
      | inl ((provider, addresses), prepared) ↦ (
        provider,
        addresses,
        prepared,
        finish_run-HoldsRun D L c (get_logs provider) (quiet provider) config world events addresses
            ranges free (prepare-Distinct (provider, addresses) prepared)
            (sym (
                run-eq-finish_run H D c get_logs config world events provider addresses ranges
                  prepared cut)
              ∙ e),
      )
      | inr (m, failed) ↦
          let absurd : ⊥ = cc (run-eq-err H D c get_logs config world events m failed, e) in
          elim absurd [ ]
    ]
