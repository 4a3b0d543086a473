-- ===== src/Backfill/Run/Verdict.antt =====
-- Which configurations are run, and when a run returns `Ok`.
use polymarket_indexer.Prelude.{
  ℕ, suc, ◌≤◌, ◌<◌, String, ◌≡◌, ◌≢◌, ◌↔◌, refl, ap, some, List, [], ◌∷◌, arith, length,
  Option-cases, inl, inr,
}
use polymarket_indexer.Prelude.Outcome.{Result-cases, ok, err}
use polymarket_indexer.Prelude.Exec.{Exec}
use polymarket_indexer.Contracts.{Address}
use polymarket_indexer.Storage.Arrow.{Disk}
use polymarket_indexer.Decode.{Log, Codec}
use polymarket_indexer.Backfill.Chunk.Outcomes.{count-process_logs-le, count-fetch_failed}
use polymarket_indexer.Backfill.Run.{
  BackfillConfig, check_config, conclude, fetching, Task, Pool, Event, starts, polls, limits,
  split_at, start_next, poll_task, step, run_pool,
}
use polymarket_indexer.Backfill.Run.Schedule.{Stage-cases}

-- A configuration is accepted exactly if its range is not reversed, and its chunk size, its
-- parallelism and its rate limit are positive.
pub check_config-ok_iff :
    (config : BackfillConfig)
    → (check_config config ≡ ok tt) ↔ (
        (config.start_block ≤ config.end_block)
        × (0 < config.chunk_size_by_block_number)
        × (0 < config.parallelism)
        × (0 < config.rate_limit_per_second))
unfolding check_config
check_config-ok_iff config = ground arith

-- The run returns `Ok` exactly if no failure was recorded.
pub conclude-ok_iff : (failures : List String) → (conclude failures ≡ ok tt) ↔ (failures ≡ [])
unfolding conclude
conclude-ok_iff [] = (λ _. refl, λ _. refl)
conclude-ok_iff (x ∷ xs) = (λ h. cc, λ h. cc)

module _ (D : Disk) (c : Codec) (output_dir : String)
    (get_logs : List Address → ℕ → ℕ → Exec D.World (List Log)) (addresses : List Address)
    (parallelism : ℕ) where
  abbrev count_failures : Pool D.World → ℕ
  count_failures p = length p.progress.failures

  pub count-poll_task-le :
      (before : List Task) (t : Task) (after : List Task) (p : Pool D.World)
      → count_failures p
        ≤ count_failures (poll_task D c output_dir get_logs addresses before t after p)
  unfolding poll_task
  count-poll_task-le before t after p = elim (Stage-cases t.stage) [
    | inl s ↦ ground arith
    | inr (inl s) ↦
        elim (Result-cases (get_logs addresses t.range.0 t.range.1 p.progress.world).0) [
          | inl (logs, r) ↦ rw (s, r, poll_task) (omega arith)
          | inr (error, r) ↦
              rw (s, r, poll_task)
                (omega (
                  arith,
                  count-fetch_failed D c output_dir t.range.0 t.range.1 error (record (p.progress) {
                    world = (get_logs addresses t.range.0 t.range.1 p.progress.world).1;
                  }),
                ))
        ]
    | inr (inr (logs, s)) ↦
        rw (s, poll_task) (count-process_logs-le D c output_dir t.range.0 t.range.1 logs p.progress)
  ]

  pub count-step-le :
      (event : Event) (p : Pool D.World)
      → count_failures p
        ≤ count_failures (step D c output_dir get_logs addresses parallelism event p)
  unfolding step start_next
  count-step-le starts p = ground arith
  count-step-le (polls i) p = elim (Option-cases (split_at i p.running)) [
    | inl e ↦ rw (e, step) (omega arith)
    | inr ((before, t, after), e) ↦ rw (e, step) (count-poll_task-le before t after p)
  ]
  count-step-le (limits t) p = omega arith

  count-run_pool-le :
      (events : List Event) (p : Pool D.World)
      → count_failures p
        ≤ count_failures (run_pool D c output_dir get_logs addresses parallelism events p)
  unfolding run_pool
  count-run_pool-le [] p = omega arith
  count-run_pool-le (event ∷ events) p = omega (
    arith,
    count-step-le event p,
    count-run_pool-le events (step D c output_dir get_logs addresses parallelism event p),
  )

  count-failed_fetch :
      (i : ℕ) (before after : List Task) (t : Task) (error : String) (p : Pool D.World)
      → split_at i p.running ≡ some (before, t, after)
      → t.stage ≡ fetching
      → (get_logs addresses t.range.0 t.range.1 p.progress.world).0 ≡ err error
      → count_failures (step D c output_dir get_logs addresses parallelism (polls i) p)
        ≡ suc (count_failures p)
  unfolding step poll_task
  count-failed_fetch i before after t error p found s r =
      rw (found, step, s, r, poll_task)
        (count-fetch_failed D c output_dir t.range.0 t.range.1 error (record (p.progress) {
          world = (get_logs addresses t.range.0 t.range.1 p.progress.world).1;
        }))

  -- Once a fetch has failed, the run cannot return `Ok`, whatever happens afterwards.
  pub failed_fetch-conclude :
      (i : ℕ) (before after : List Task) (t : Task) (error : String) (p : Pool D.World)
      (events : List Event)
      → split_at i p.running ≡ some (before, t, after)
      → t.stage ≡ fetching
      → (get_logs addresses t.range.0 t.range.1 p.progress.world).0 ≡ err error
      → conclude
          (run_pool D c output_dir get_logs addresses parallelism
            (polls i ∷ events)
            p).progress.failures
        ≢ ok tt
  unfolding run_pool
  failed_fetch-conclude i before after t error p events found s r h =
      let q = step D c output_dir get_logs addresses parallelism (polls i) p in
      omega (
        arith,
        count-failed_fetch i before after t error p found s r,
        count-run_pool-le events q,
        ap length ((conclude-ok_iff _).0 h),
      )
