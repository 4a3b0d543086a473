-- ===== src/Backfill/Run/Success.antt =====
-- A run does not fail by itself: where the provider answers and the disk works, it returns `Ok`.
pub mod Whole
use mathlib.Core.Path.{subst}
use polymarket_indexer.Prelude.{
  ℕ, ◌≤◌, ◌<◌, String, ◌≡◌, ◌⊎◌, refl, ap, sym, ◌∙◌, none, some, List, [], ◌∷◌, arith, All, length,
  inl, inr, ltb, Bool-cases, Option-cases, List-cases, is_empty, ◌&&◌, if◌then◌else◌, Option,
}
use polymarket_indexer.Prelude.Dict.{Dict}
use polymarket_indexer.Prelude.Outcome.{Result, Result-cases, ok}
use polymarket_indexer.Prelude.Exec.{Exec}
use polymarket_indexer.Contracts.{Address}
use polymarket_indexer.Storage.Arrow.{Disk}
use polymarket_indexer.Decode.{Log, Codec}
use polymarket_indexer.Backfill.RateLimiter
use polymarket_indexer.Backfill.Rows.{EventRow, sort_rows}
use polymarket_indexer.Backfill.Group.{no_rows, group_logs}
use polymarket_indexer.Backfill.Group.Shape.{IsShaped, group_logs-IsShaped}
use polymarket_indexer.Backfill.File.{write_parquet_file}
use polymarket_indexer.Storage.Reliable.{IsReliable}
use polymarket_indexer.Backfill.File.Fitting.{sort_rows-HasWidth, write_parquet_file-ok}
use polymarket_indexer.Backfill.Chunk.{process_logs}
use polymarket_indexer.Backfill.Chunk.Outcomes.{WroteAll, process_logs-clean_iff}
use polymarket_indexer.Backfill.Run.{
  BackfillConfig, conclude, fetched, Task, Pool, Event, starts, polls, limits, split_at, start_pool,
  start_next, poll_task, step, run_pool, finish_run,
}
use polymarket_indexer.Backfill.Run.Schedule.{Stage-cases, split_at-append}
use polymarket_indexer.Backfill.Run.Complete.{
  IsFetched, IsSound, step-IsSound, start_pool-IsSound, no_length, All-split,
}
use polymarket_indexer.Backfill.Run.Verdict.{conclude-ok_iff}

-- The provider answers every request, and no decoded log of an answer lacks metadata.
pub record IsAnswering {World : Type 0} (c : Codec)
    (get_logs : List Address → ℕ → ℕ → Exec World (List Log)) : Type 0 where
  pub answers :
      (addresses : List Address) (from to : ℕ) (w : World)
      → (logs : List Log) × ((get_logs addresses from to w).0 ≡ ok logs)
        × ((group_logs c logs no_rows).missing_metadata_count ≡ 0)

module _ (D : Disk) (reliable : IsReliable D) (c : Codec) (output_dir : String) where
  IsShaped-WroteAll :
      (chunk_start chunk_end : ℕ) (m : Dict (List String × List EventRow)) (w : D.World)
      → IsShaped m
      → WroteAll D c output_dir chunk_start chunk_end m w
  IsShaped-WroteAll chunk_start chunk_end [] w h = tt
  IsShaped-WroteAll chunk_start chunk_end ((k, (columns, rows)) ∷ m) w h = (
    write_parquet_file-ok D reliable output_dir k columns (sort_rows rows) chunk_start chunk_end w
        (sort_rows-HasWidth (length columns) rows h.0.1),
    IsShaped-WroteAll chunk_start chunk_end m _ h.1,
  )

  module _ (get_logs : List Address → ℕ → ℕ → Exec D.World (List Log))
      (answering : IsAnswering c get_logs) (addresses : List Address) where
    abbrev Unfailing : Pool D.World → Type 0
    Unfailing p = p.progress.failures ≡ []

    process_logs-Unfailing :
        (t : Task) (logs : List Log) (p : Pool D.World)
        → IsFetched D c output_dir get_logs addresses t
        → t.stage ≡ fetched logs
        → Unfailing p
        → (process_logs D c output_dir t.range.0 t.range.1 logs p.progress).failures ≡ []
    process_logs-Unfailing t logs p fetch s h =
        let (w, returned) = fetch logs s in
        let (logs', returned', complete) = answering.answers addresses t.range.0 t.range.1 w in
        let same : logs' ≡ logs = cc in
        let clean = (process_logs-clean_iff D c output_dir t.range.0 t.range.1 logs p.progress).1 (
          subst (λ l. (group_logs c l no_rows).missing_metadata_count ≡ 0) same complete,
          IsShaped-WroteAll t.range.0 t.range.1 (group_logs c logs no_rows).by_event
              p.progress.world (group_logs-IsShaped c logs),
        ) in
        no_length _ (omega (arith, clean, ap length h))

    poll_task-Unfailing :
        (before : List Task) (t : Task) (after : List Task) (p : Pool D.World)
        → IsFetched D c output_dir get_logs addresses t
        → Unfailing p
        → Unfailing (poll_task D c output_dir get_logs addresses before t after p)
    unfolding poll_task
    poll_task-Unfailing before t after p fetch h = elim (Stage-cases t.stage) [
      | inl s ↦ elim (Option-cases (RateLimiter.acquire p.limiter)) [
        | inl a ↦ rw (s, a, poll_task) h
        | inr (limiter, a) ↦ rw (s, a, poll_task) h
      ]
      | inr (inl s) ↦
          let (logs, r, _) = answering.answers addresses t.range.0 t.range.1 p.progress.world in
          rw (s, r, poll_task) h
      | inr (inr (logs, s)) ↦ rw (s, poll_task) (process_logs-Unfailing t logs p fetch s h)
    ]

    module _ (parallelism : ℕ) where
      step-Unfailing :
          (event : Event) (p : Pool D.World)
          → IsSound D c output_dir get_logs addresses p
          → Unfailing p
          → Unfailing (step D c output_dir get_logs addresses parallelism event p)
      unfolding step start_next
      step-Unfailing starts p sound h = ground arith
      step-Unfailing (polls i) p sound h = elim (Option-cases (split_at i p.running)) [
        | inl e ↦ rw (e, step) h
        | inr ((before, t, after), e) ↦
            let shape = split_at-append i p.running before after t e in
            let (_, (fetch, _)) =
              All-split (IsFetched D c output_dir get_logs addresses) before after t
                (subst (All (IsFetched D c output_dir get_logs addresses)) shape sound.fetches) in
            rw (e, step) (poll_task-Unfailing before t after p fetch h)
      ]
      step-Unfailing (limits t) p sound h = h

      run_pool-Unfailing :
          (events : List Event) (p : Pool D.World)
          → IsSound D c output_dir get_logs addresses p
          → Unfailing p
          → Unfailing (run_pool D c output_dir get_logs addresses parallelism events p)
      unfolding run_pool
      run_pool-Unfailing [] p sound h = h
      run_pool-Unfailing (event ∷ events) p sound h =
          run_pool-Unfailing events (step D c output_dir get_logs addresses parallelism event p)
            (step-IsSound D c output_dir get_logs addresses parallelism event p sound)
            (step-Unfailing event p sound h)

      start_pool-Unfailing :
          (config : BackfillConfig) (ranges : List (ℕ × ℕ)) (world : D.World)
          → Unfailing (start_pool config ranges world)
      unfolding start_pool
      start_pool-Unfailing config ranges world = refl

      pub conclude-start_pool :
          (config : BackfillConfig) (ranges : List (ℕ × ℕ)) (world : D.World) (events : List Event)
          → conclude
              (run_pool D c output_dir get_logs addresses parallelism events
                (start_pool config ranges world)).progress.failures
            ≡ ok tt
      conclude-start_pool config ranges world events = (conclude-ok_iff _).1 (
          run_pool-Unfailing events (start_pool config ranges world)
            (start_pool-IsSound D c output_dir get_logs addresses parallelism config ranges world)
            (start_pool-Unfailing config ranges world))
