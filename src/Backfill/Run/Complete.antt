-- ===== src/Backfill/Run/Complete.antt =====
-- What `Ok` says of a run: each chunk was fetched, and all its rows were written.
use mathlib.Core.Path.{subst}
use polymarket_indexer.Prelude.{
  ℕ, ◌≤◌, String, ◌≡◌, refl, ap, sym, ◌∙◌, List, [], ◌∷◌, ◌++◌, arith, All, All-append, length, inl,
  inr, ltb, Bool-cases, Option-cases, List-cases,
}
use polymarket_indexer.Prelude.Outcome.{Result-cases, ok}
use polymarket_indexer.Prelude.Exec.{Exec}
use polymarket_indexer.Contracts.{Address}
use polymarket_indexer.Storage.Arrow.{Disk}
use polymarket_indexer.Decode.{Log, Codec}
use polymarket_indexer.Backfill.RateLimiter
use polymarket_indexer.Backfill.Group.{no_rows, group_logs}
use polymarket_indexer.Backfill.Chunk.{process_logs}
use polymarket_indexer.Backfill.Chunk.Outcomes.{
  WroteAll, process_logs-clean_iff, count-process_logs-le, count-fetch_failed,
}
use polymarket_indexer.Backfill.Run.{
  BackfillConfig, conclude, fetched, Task, Pool, Event, starts, polls, limits, split_at, start_pool,
  start_next, poll_task, step, run_pool,
}
use polymarket_indexer.Backfill.Run.Schedule.{Stage-cases, split_at-append}
use polymarket_indexer.Backfill.Run.Verdict.{conclude-ok_iff}

pub no_length : {A : Type 0} (xs : List A) → length xs ≤ 0 → xs ≡ []
no_length [] h = refl
no_length (x ∷ xs) h = let absurd : ⊥ = omega arith in elim absurd [ ]

pub All-split :
    {A : Type 0} (P : A → Type 0) (before after : List A) (t : A)
    → All P (before ++ t ∷ after)
    → All P before × (P t × All P after)
All-split P [] after t h = (tt, h)
All-split P (x ∷ before) after t h =
    let (all, rest) = All-split P before after t h.1 in ((h.0, all), rest)

module _ (D : Disk) (c : Codec) (output_dir : String)
    (get_logs : List Address → ℕ → ℕ → Exec D.World (List Log)) (addresses : List Address) where
  -- The chunk was fetched, no decoded log of it lacked metadata, and each group of its rows was
  -- sorted and written to its file.
  pub record IsIngested (range : ℕ × ℕ) : Type 0 where
    pub logs : List Log
    pub asked : D.World
    pub fetch : (get_logs addresses range.0 range.1 asked).0 ≡ ok logs
    pub complete : (group_logs c logs no_rows).missing_metadata_count ≡ 0
    pub writing : D.World
    pub wrote : WroteAll D c output_dir range.0 range.1 (group_logs c logs no_rows).by_event writing

  -- The logs of a task are those that the provider returned for its chunk.
  abbrev pub IsFetched : Task → Type 0
  IsFetched t =
      (logs : List Log)
      → t.stage ≡ fetched logs
      → (w : D.World) × ((get_logs addresses t.range.0 t.range.1 w).0 ≡ ok logs)

  pub record IsSound (p : Pool D.World) : Type 0 where
    pub ingested : p.progress.failures ≡ [] → All IsIngested p.finished
    pub fetches : All IsFetched p.running

  process_logs-IsIngested :
      (t : Task) (logs : List Log) (p : Pool D.World)
      → IsFetched t
      → t.stage ≡ fetched logs
      → (process_logs D c output_dir t.range.0 t.range.1 logs p.progress).failures ≡ []
      → (p.progress.failures ≡ []) × IsIngested t.range
  process_logs-IsIngested t logs p f s e =
      let none_before : p.progress.failures ≡ [] = no_length p.progress.failures (
        omega (
          arith,
          ap length e,
          count-process_logs-le D c output_dir t.range.0 t.range.1 logs p.progress,
        )) in
      let (complete, wrote) =
        (process_logs-clean_iff D c output_dir t.range.0 t.range.1 logs p.progress).0
          (ap length e ∙ sym (ap length none_before)) in
      let (asked, fetch) = f logs s in
      (
        none_before,
        record {
          logs = logs;
          asked = asked;
          fetch = fetch;
          complete = complete;
          writing = p.progress.world;
          wrote = wrote;
        },
      )

  poll_task-IsSound :
      (before : List Task) (t : Task) (after : List Task) (p : Pool D.World)
      → p.running ≡ before ++ t ∷ after
      → IsSound p
      → IsSound (poll_task D c output_dir get_logs addresses before t after p)
  unfolding poll_task
  poll_task-IsSound before t after p e h =
      let (hb, (ht, ha)) = All-split IsFetched before after t (subst (All IsFetched) e h.fetches) in
      elim (Stage-cases t.stage) [
        | inl s ↦ elim (Option-cases (RateLimiter.acquire p.limiter)) [
          | inl a ↦ rw (s, a, poll_task) h
          | inr (limiter, a) ↦
              rw (s, a, poll_task)
                (record {
                  ingested = h.ingested;
                  fetches = All-append IsFetched before _ hb ((λ logs f. cc), ha);
                })
        ]
        | inr (inl s) ↦
            elim (Result-cases (get_logs addresses t.range.0 t.range.1 p.progress.world).0) [
              | inl (logs, r) ↦
                  rw (s, r, poll_task)
                    (record {
                      ingested = h.ingested;
                      fetches =
                          All-append IsFetched before _ hb
                            ((λ logs' f. (p.progress.world, cc)), ha);
                    })
              | inr (error, r) ↦
                  rw (s, r, poll_task)
                    (record {
                      ingested = λ no_failures.
                          let absurd : ⊥ = omega (
                            arith,
                            ap length no_failures,
                            count-fetch_failed D c output_dir t.range.0 t.range.1 error
                                (record (p.progress) {
                                  world =
                                      (get_logs addresses t.range.0 t.range.1 p.progress.world).1;
                                }),
                          ) in
                          elim absurd [ ];
                      fetches = All-append IsFetched before after hb ha;
                    })
            ]
        | inr (inr (logs, s)) ↦
            rw (s, poll_task)
              (record {
                ingested = λ no_failures.
                    let (none_before, now) = process_logs-IsIngested t logs p ht s no_failures in
                    All-append IsIngested p.finished (t.range ∷ []) (h.ingested none_before)
                      (now, tt);
                fetches = All-append IsFetched before after hb ha;
              })
      ]

  module _ (parallelism : ℕ) where
    start_next-IsSound : (p : Pool D.World) → IsSound p → IsSound (start_next parallelism p)
    unfolding start_next
    start_next-IsSound p h = elim (List-cases p.pending) [
      | inl e ↦ rw (e, start_next) h
      | inr (range, rest, e) ↦ elim (Bool-cases (ltb (length p.running) parallelism)) [
        | inl l ↦
            rw (e, l, start_next)
              (record {
                ingested = h.ingested;
                fetches = All-append IsFetched p.running _ h.fetches ((λ logs f. cc), tt);
              })
        | inr l ↦ rw (e, l, start_next) h
      ]
    ]

    pub step-IsSound :
        (event : Event) (p : Pool D.World)
        → IsSound p
        → IsSound (step D c output_dir get_logs addresses parallelism event p)
    unfolding step
    step-IsSound starts p h = start_next-IsSound p h
    step-IsSound (polls i) p h = elim (Option-cases (split_at i p.running)) [
      | inl e ↦ rw (e, step) h
      | inr ((before, t, after), e) ↦
          rw (e, step)
            (poll_task-IsSound before t after p (split_at-append i p.running before after t e) h)
    ]
    step-IsSound (limits t) p h = record { ingested = h.ingested; fetches = h.fetches }

    pub run_pool-IsSound :
        (events : List Event) (p : Pool D.World)
        → IsSound p
        → IsSound (run_pool D c output_dir get_logs addresses parallelism events p)
    unfolding run_pool
    run_pool-IsSound [] p h = h
    run_pool-IsSound (event ∷ events) p h = run_pool-IsSound events _ (step-IsSound event p h)

    pub start_pool-IsSound :
        (config : BackfillConfig) (ranges : List (ℕ × ℕ)) (world : D.World)
        → IsSound (start_pool config ranges world)
    unfolding start_pool
    start_pool-IsSound config ranges world = record { ingested = λ _. tt; fetches = tt }

    -- If the run concludes with `Ok`, after whatever events, each chunk that is finished was fetched,
    -- lost no decoded log to missing metadata, and had all its files written.
    pub conclude-IsIngested :
        (config : BackfillConfig) (ranges : List (ℕ × ℕ)) (world : D.World) (events : List Event)
        → let p =
            run_pool D c output_dir get_logs addresses parallelism events
              (start_pool config ranges world) in
          conclude p.progress.failures ≡ ok tt
          → All IsIngested
              (run_pool D c output_dir get_logs addresses parallelism events
                (start_pool config ranges world)).finished
    conclude-IsIngested config ranges world events h =
        (run_pool-IsSound events (start_pool config ranges world)
            (start_pool-IsSound config ranges world)).ingested
          ((conclude-ok_iff _).0 h)
