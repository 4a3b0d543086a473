-- ===== src/Commands/Files.antt =====
-- The backfill program as a whole: from its options to the files on the disk.
use polymarket_indexer.Prelude.{ℕ, ◌+◌, ◌≤◌, ◌≡◌, some, List, All, u64_mod}
use polymarket_indexer.Prelude.Outcome.{ok}
use polymarket_indexer.Prelude.Exec.{Exec}
use polymarket_indexer.Contracts.{Address}
use polymarket_indexer.Decode.{Log, Codec}
use polymarket_indexer.Storage.Arrow.{Disk}
use polymarket_indexer.Storage.Parquet.Paths.{DiskLaws}
use polymarket_indexer.Backfill.Chunks.{chunk_ranges}
use polymarket_indexer.Backfill.Chunk.Files.{IsFree}
use polymarket_indexer.Backfill.Run.{Event, prepare}
use polymarket_indexer.Backfill.Provider.{Http, Provider}
use polymarket_indexer.Backfill.Run.Files.{ProviderLaws}
use polymarket_indexer.Backfill.Run.Files.Whole.{HoldsRun, run-HoldsRun}
use polymarket_indexer.Commands.{BackfillArgs, backfill_config, backfill_main}

module _ (H : Http) (D : Disk) (L : DiskLaws D) (c : Codec)
    (get_logs : Provider H → List Address → ℕ → ℕ → Exec D.World (List Log))
    (quiet : (provider : Provider H) → ProviderLaws D L (get_logs provider)) (args : BackfillArgs)
    (events : List Event) (world : D.World) (ranges : List (ℕ × ℕ)) where
  -- If the backfill returns `Ok`, on a range whose end is at least one chunk below 2^64, with no file
  -- under a path of its chunks before the run, and a provider whose requests change no file, then
  -- the complete files are those from before, followed by those of the chunks of the range, each
  -- once, in the order in which they finished. For each chunk there is exactly one file for each
  -- event type that has rows among the logs that the provider returned, under the path of the chunk
  -- and the event type in the output directory, and it holds one batch, made of those rows, sorted;
  -- no decoded log lacked metadata.
  pub backfill_main-HoldsRun :
      chunk_ranges args.start_block args.end_block args.chunk_size_by_block_number ≡ some ranges
      → args.end_block + args.chunk_size_by_block_number ≤ u64_mod
      → All (IsFree D args.output_dir world) ranges
      → backfill_main H D c get_logs args events world ≡ some (ok tt)
      → (provider : Provider H) × (addresses : List Address) × (prepare H (backfill_config args)
          ≡ ok (provider, addresses))
        × HoldsRun D L c
            (get_logs provider)
            (quiet provider)
            (backfill_config args)
            world
            events
            addresses
            ranges
  unfolding backfill_main backfill_config
  backfill_main-HoldsRun cut fits free e =
      run-HoldsRun H D L c get_logs quiet (backfill_config args) world events ranges cut fits free e
