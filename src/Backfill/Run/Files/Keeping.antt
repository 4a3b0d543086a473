-- ===== src/Backfill/Run/Files/Keeping.antt =====
-- Every event of a run keeps the account of its files.
use mathlib.Core.List.{append_assoc, map-append}
use mathlib.Core.Path.{subst}
use polymarket_indexer.Prelude.{
  ℕ, String, ◌≡◌, refl, ap, sym, ◌∙◌, List, [], ◌∷◌, ◌++◌, All, length, inl, inr, Option-cases,
  List-cases, Bool-cases, ltb,
}
use polymarket_indexer.Prelude.Outcome.{Result-cases}
use polymarket_indexer.Prelude.Exec.{Exec}
use polymarket_indexer.Contracts.{Address}
use polymarket_indexer.Storage.Arrow.{Disk}
use polymarket_indexer.Storage.Parquet.Paths.{DiskLaws}
use polymarket_indexer.Decode.{Log, Codec}
use polymarket_indexer.Backfill.RateLimiter
use polymarket_indexer.Backfill.Chunk.Files.{IsFree}
use polymarket_indexer.Backfill.Run.{
  Stage, waiting, fetching, fetched, Task, Pool, Event, starts, polls, limits, split_at, start_next,
  poll_task, step, run_pool,
}
use polymarket_indexer.Backfill.Run.Schedule.{ranges_of, Stage-cases, split_at-append}
use polymarket_indexer.Backfill.Run.Complete.{IsFetched, IsSound, step-IsSound, All-split}
use polymarket_indexer.Backfill.Run.Files.{
  ProviderLaws, todo, Filed, Filed-IsFree, Filed-same, Filed-finish,
}
use polymarket_indexer.Backfill.Run.Files.Leaving.{fetch_failed-Leaves, process_logs-Leaves}

-- A chunk that is started is still to do.
todo-start :
    (ts : List Task) (range : ℕ × ℕ) (rest : List (ℕ × ℕ))
    → ranges_of (ts ++ record { range = range; stage = waiting } ∷ []) ++ rest
      ≡ ranges_of ts ++ range ∷ rest
todo-start ts range rest = simp (map-append, append_assoc)

module _ (D : Disk) (L : DiskLaws D) (c : Codec) (output_dir : String)
    (get_logs : List Address → ℕ → ℕ → Exec D.World (List Log)) (addresses : List Address)
    (provider : ProviderLaws D L get_logs) (before_run : List D.Writer) where
  abbrev Goal : Pool D.World → Type 0
  Goal = Filed D L c output_dir get_logs addresses before_run

  -- Another stage of a task is no other chunk to do.
  todo-move :
      (p : Pool D.World) (before : List Task) (t : Task) (after : List Task) (s : Stage)
      → p.running ≡ before ++ t ∷ after
      → ranges_of (before ++ record t { stage = s } ∷ after) ++ p.pending ≡ todo p
  todo-move p before t after s e = sym (ap (λ ts. ranges_of ts ++ p.pending) e ∙ simp map-append)

  poll_task-Filed :
      (before : List Task) (t : Task) (after : List Task) (p : Pool D.World)
      → p.running ≡ before ++ t ∷ after
      → IsFetched D c output_dir get_logs addresses t
      → Goal p
      → Goal (poll_task D c output_dir get_logs addresses before t after p)
  unfolding poll_task
  poll_task-Filed before t after p e fetch h = elim (Stage-cases t.stage) [
    | inl s ↦ elim (Option-cases (RateLimiter.acquire p.limiter)) [
      | inl a ↦ rw (s, a, poll_task) h
      | inr (limiter, a) ↦
          rw (s, a, poll_task)
            (Filed-same D L c output_dir get_logs addresses before_run p _ refl
              (todo-move p before t after fetching e) refl refl (λ path. refl) h)
    ]
    | inr (inl s) ↦
        elim (Result-cases (get_logs addresses t.range.0 t.range.1 p.progress.world).0) [
          | inl (logs, r) ↦
              rw (s, r, poll_task)
                (Filed-same D L c output_dir get_logs addresses before_run p _ refl
                  (todo-move p before t after (fetched logs) e) refl
                  (provider.closed-get_logs addresses _ _ p.progress.world)
                  (provider.exists-get_logs addresses _ _ p.progress.world) h)
          | inr (error, r) ↦
              rw (s, r, poll_task)
                (Filed-finish D L c output_dir get_logs addresses before_run before t after p _ [] e
                  refl refl
                  (fetch_failed-Leaves D L c output_dir get_logs addresses provider before_run t
                    error p _ refl refl)
                  h)
        ]
    | inr (inr (logs, s)) ↦
        let free : IsFree D output_dir p.progress.world t.range =
          Filed-IsFree D L c output_dir get_logs addresses before_run before t after p e h in
        rw (s, poll_task)
          (let (more, leaves) =
              process_logs-Leaves D L c output_dir get_logs addresses provider before_run t logs p _
                refl refl fetch s free in
            Filed-finish D L c output_dir get_logs addresses before_run before t after p _ more e
              refl refl leaves h)
  ]

  module _ (parallelism : ℕ) where
    start_next-Filed : (p : Pool D.World) → Goal p → Goal (start_next parallelism p)
    unfolding start_next
    start_next-Filed p h = elim (List-cases p.pending) [
      | inl e ↦ rw (e, start_next) h
      | inr (range, rest, e) ↦ elim (Bool-cases (ltb (length p.running) parallelism)) [
        | inl l ↦
            rw (e, l, start_next)
              (Filed-same D L c output_dir get_logs addresses before_run p _ refl
                (todo-start p.running range rest ∙ ap (λ l. ranges_of p.running ++ l) (sym e)) refl
                refl (λ path. refl) h)
        | inr l ↦ rw (e, l, start_next) h
      ]
    ]

    step-Filed :
        (event : Event) (p : Pool D.World)
        → IsSound D c output_dir get_logs addresses p
        → Goal p
        → Goal (step D c output_dir get_logs addresses parallelism event p)
    unfolding step
    step-Filed starts p sound h = start_next-Filed p h
    step-Filed (polls i) p sound h = elim (Option-cases (split_at i p.running)) [
      | inl e ↦ rw (e, step) h
      | inr ((before, t, after), e) ↦
          let shape = split_at-append i p.running before after t e in
          let (_, (fetch, _)) =
            All-split (IsFetched D c output_dir get_logs addresses) before after t
              (subst (All (IsFetched D c output_dir get_logs addresses)) shape sound.fetches) in
          rw (e, step) (poll_task-Filed before t after p shape fetch h)
    ]
    step-Filed (limits t) p sound h =
        Filed-same D L c output_dir get_logs addresses before_run p _ refl refl refl refl
          (λ path. refl) h

    pub run_pool-Filed :
        (events : List Event) (p : Pool D.World)
        → IsSound D c output_dir get_logs addresses p
        → Goal p
        → Goal (run_pool D c output_dir get_logs addresses parallelism events p)
    unfolding run_pool
    run_pool-Filed [] p sound h = h
    run_pool-Filed (event ∷ events) p sound h =
        run_pool-Filed events (step D c output_dir get_logs addresses parallelism event p)
          (step-IsSound D c output_dir get_logs addresses parallelism event p sound)
          (step-Filed event p sound h)
