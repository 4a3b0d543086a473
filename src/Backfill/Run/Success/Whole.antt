-- ===== src/Backfill/Run/Success/Whole.antt =====
-- The whole run, where the provider answers and the disk works.
use polymarket_indexer.Prelude.{
  ℕ, ◌+◌, ◌≤◌, ◌<◌, ◌≡◌, ◌⊎◌, refl, ap, ◌∙◌, none, some, List, inl, inr, u64_mod, is_empty, ◌&&◌,
  Bool-cases,
}
use polymarket_indexer.Prelude.Outcome.{ok}
use polymarket_indexer.Prelude.Exec.{Exec}
use polymarket_indexer.Contracts.{Address}
use polymarket_indexer.Storage.Arrow.{Disk}
use polymarket_indexer.Decode.{Log, Codec}
use polymarket_indexer.Backfill.RateLimiter
use polymarket_indexer.Backfill.Chunks.Cover.{chunk_ranges-Tiles}
use polymarket_indexer.Storage.Reliable.{IsReliable}
use polymarket_indexer.Backfill.Provider.{Http, Provider}
use polymarket_indexer.Backfill.Run.{
  BackfillConfig, Pool, Event, start_pool, run_pool, finish_run, prepare, run,
}
use polymarket_indexer.Backfill.Run.Verdict.{check_config-ok_iff}
use polymarket_indexer.Backfill.Run.Liveness.{run_pool-Drains}
use polymarket_indexer.Backfill.Run.Coverage.{prepare-check_config, run-eq-finish_run}
use polymarket_indexer.Backfill.Run.Success.{IsAnswering, conclude-start_pool}

module _ (D : Disk) (reliable : IsReliable D) (c : Codec)
    (get_logs : List Address → ℕ → ℕ → Exec D.World (List Log)) (answering : IsAnswering c get_logs)
    (addresses : List Address) (config : BackfillConfig) (ranges : List (ℕ × ℕ))
    (world : D.World) where
  abbrev Finishes : List Event → Type 0
  Finishes events =
      finish_run D c config.output_dir get_logs addresses config.parallelism
        (start_pool config ranges world) events
      ≡ some (ok tt)

  finish_run-cases :
      (events : List Event)
      → (finish_run D c config.output_dir get_logs addresses config.parallelism
            (start_pool config ranges world)
            events
          ≡ none)
        ⊎ Finishes events
  unfolding finish_run
  finish_run-cases events =
      let p : Pool D.World =
        run_pool D c config.output_dir get_logs addresses config.parallelism events
          (start_pool config ranges world) in
      let done =
        conclude-start_pool D reliable c config.output_dir get_logs answering addresses
          config.parallelism config ranges world events in
      elim (Bool-cases (is_empty p.pending && is_empty p.running)) [
        | inl t ↦ inr (rw (t, finish_run, done) refl)
        | inr f ↦ inl (rw (f, finish_run) refl)
      ]

  finish_run-Drains :
      0 < config.parallelism
      → 0 < config.rate_limit_per_second
      → (events : List Event) × Finishes events
  unfolding finish_run start_pool RateLimiter.new
  finish_run-Drains parallel limit =
      let drains =
        run_pool-Drains D c config.output_dir get_logs addresses config.parallelism parallel
          (start_pool config ranges world) limit in
      let done =
        conclude-start_pool D reliable c config.output_dir get_logs answering addresses
          config.parallelism config ranges world drains.events in
      (drains.events, rw (drains.started, drains.finished) (ap some done))

module _ (H : Http) (D : Disk) (reliable : IsReliable D) (c : Codec)
    (get_logs : Provider H → List Address → ℕ → ℕ → Exec D.World (List Log))
    (config : BackfillConfig) (world : D.World) where
  -- On a disk all of whose calls return, with a provider that answers every request with logs of
  -- which no decoded one lacks metadata, and on a range whose end is at least one chunk below 2^64:
  -- a run that is prepared returns no error, whatever the order of events, and there are events
  -- after which it returns `Ok`.
  pub run_succeeds :
      (provider : Provider H) (addresses : List Address)
      → prepare H config ≡ ok (provider, addresses)
      → IsAnswering c (get_logs provider)
      → config.end_block + config.chunk_size_by_block_number ≤ u64_mod
      → ((events : List Event)
          → (run H D c get_logs config events world ≡ none)
            ⊎ (run H D c get_logs config events world ≡ some (ok tt)))
        × (events : List Event) × (run H D c get_logs config events world ≡ some (ok tt))
  run_succeeds provider addresses prepared answering fits =
      let (ordered, positive_size, parallel, limit) =
        (check_config-ok_iff config).0
          (prepare-check_config H config (provider, addresses) prepared) in
      let (ranges, cut, _) =
        chunk_ranges-Tiles config.start_block config.end_block config.chunk_size_by_block_number
          ordered positive_size fits in
      let same = λ (events : List Event).
        run-eq-finish_run H D c get_logs config world events provider addresses ranges prepared
          cut in
      let (last, done) =
        finish_run-Drains D reliable c (get_logs provider) answering addresses config ranges world
          parallel limit in
      (
        λ events.
            elim (finish_run-cases D reliable c (get_logs provider) answering addresses config
              ranges world events) [
                | inl e ↦ inl (same events ∙ e)
                | inr e ↦ inr (same events ∙ e)
              ],
        last,
        same last ∙ done,
      )
