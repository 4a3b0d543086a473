-- ===== src/Backfill/Run/Schedule.antt =====
-- Whatever the order of events, at most `parallelism` chunks are under way, and each chunk is
-- handled exactly once.
use mathlib.Core.List.{Perm, append_assoc, map-append, perm_middle}
use mathlib.Core.List.Perm
use mathlib.Core.Path.{subst, ap₂}
use polymarket_indexer.Prelude.{
  ℕ, zero, suc, ◌≤◌, String, ◌≡◌, refl, ap, sym, ◌∙◌, some, List, [], ◌∷◌, ◌++◌, map, arith, length,
  length-append, Option-cases, Bool-cases, List-cases, ltb, ltb→lt, length-map, ◌⊎◌, inl, inr,
}
use polymarket_indexer.Prelude.Outcome.{Result-cases}
use polymarket_indexer.Prelude.Exec.{Exec}
use polymarket_indexer.Contracts.{Address}
use polymarket_indexer.Storage.Arrow.{Disk}
use polymarket_indexer.Decode.{Log, Codec}
use polymarket_indexer.Backfill.RateLimiter
use polymarket_indexer.Backfill.Run.{
  BackfillConfig, Stage, waiting, fetching, fetched, Task, Pool, Event, starts, polls, limits,
  split_at, start_pool, start_next, poll_task, step, run_pool,
}

pub split_at-append :
    (i : ℕ) (ts before after : List Task) (t : Task)
    → split_at i ts ≡ some (before, t, after)
    → ts ≡ before ++ t ∷ after
unfolding split_at
split_at-append i [] before after t h = cc
split_at-append zero (x ∷ ts) before after t h = ground arith
split_at-append (suc i) (x ∷ ts) before after t h = elim (Option-cases (split_at i ts)) [
  | inl e ↦ ground arith
  | inr ((b, f, a), e) ↦ ground (arith, split_at-append i ts b a f e)
]

abbrev pub ranges_of : List Task → List (ℕ × ℕ)
ranges_of ts = map (λ (t : Task). t.range) ts

start_chunks :
    (f : List (ℕ × ℕ)) (ts : List Task) (range : ℕ × ℕ) (rest : List (ℕ × ℕ))
    → f ++ ranges_of ts ++ range ∷ rest
      ≡ f ++ ranges_of (ts ++ record { range = range; stage = waiting } ∷ []) ++ rest
start_chunks f ts range rest = simp (map-append, append_assoc)

finish_chunks :
    (f : List (ℕ × ℕ)) (before after : List Task) (t : Task) (pending : List (ℕ × ℕ))
    → Perm
        (f ++ t.range ∷ [] ++ ranges_of (before ++ after) ++ pending)
        (f ++ ranges_of (before ++ t ∷ after) ++ pending)
finish_chunks f before after t pending =
    simp (map-append, append_assoc)
      (Perm.append_left f (Perm.symm (perm_middle (ranges_of before) (ranges_of after ++ pending))))

-- The chunks that are finished, under way, or still to come.
abbrev pub chunks : {World : Type 0} → Pool World → List (ℕ × ℕ)
chunks p = p.finished ++ ranges_of p.running ++ p.pending

pub record IsOrderly {World : Type 0} (parallelism : ℕ) (ranges : List (ℕ × ℕ)) (p : Pool World)
    : Type 0 where
  pub bounded : length p.running ≤ parallelism
  pub conserved : Perm (chunks p) ranges

start_next-IsOrderly :
    {World : Type 0} (parallelism : ℕ) (ranges : List (ℕ × ℕ)) (p : Pool World)
    → IsOrderly parallelism ranges p
    → IsOrderly parallelism ranges (start_next parallelism p)
unfolding start_next
start_next-IsOrderly parallelism ranges p h = elim (List-cases p.pending) [
  | inl e ↦ rw (e, start_next) (record { bounded = h.bounded; conserved = h.conserved })
  | inr (range, rest, e) ↦ elim (Bool-cases (ltb (length p.running) parallelism)) [
    | inl room ↦
        rw (e, room, start_next)
          (record {
            bounded = omega (
              arith,
              ltb→lt _ _ room,
              length-append p.running (record { range = range; stage = waiting } ∷ []),
            );
            conserved =
                subst (λ l. Perm l ranges)
                  (ap (λ l. p.finished ++ ranges_of p.running ++ l) e
                    ∙ start_chunks p.finished p.running range rest)
                  h.conserved;
          })
    | inr full ↦ rw (e, full, start_next) (record { bounded = h.bounded; conserved = h.conserved })
  ]
]

module _ {World : Type 0} (parallelism : ℕ) (ranges : List (ℕ × ℕ)) (p q : Pool World) where
  keep-IsOrderly :
      q.finished ≡ p.finished
      → q.pending ≡ p.pending
      → ranges_of q.running ≡ ranges_of p.running
      → IsOrderly parallelism ranges p
      → IsOrderly parallelism ranges q
  keep-IsOrderly ef ep er h = record {
    bounded = omega (
      arith,
      h.bounded,
      length-map (λ (t : Task). t.range) p.running,
      length-map (λ (t : Task). t.range) q.running,
      ap length er,
    );
    conserved =
        subst (λ l. Perm l ranges) (sym (ap₂ (λ f l. f ++ l) (ap₂ (λ f l. f ++ l) ef er) ep))
          h.conserved;
  }

  finish-IsOrderly :
      (before : List Task) (t : Task) (after : List Task)
      → p.running ≡ before ++ t ∷ after
      → q.finished ≡ p.finished ++ t.range ∷ []
      → q.pending ≡ p.pending
      → q.running ≡ before ++ after
      → IsOrderly parallelism ranges p
      → IsOrderly parallelism ranges q
  finish-IsOrderly before t after e ef ep er h = record {
    bounded = omega (
      arith,
      h.bounded,
      ap length e,
      ap length er,
      length-append before (t ∷ after),
      length-append before after,
    );
    conserved =
        subst (λ l. Perm l ranges)
          (sym (ap₂ (λ f l. f ++ l) (ap₂ (λ f l. f ++ ranges_of l) ef er) ep))
          (Perm.trans (finish_chunks p.finished before after t p.pending)
            (subst (λ l. Perm (p.finished ++ ranges_of l ++ p.pending) ranges) e h.conserved));
  }

pub Stage-cases :
    (s : Stage) → (s ≡ waiting) ⊎ ((s ≡ fetching) ⊎ ((logs : List Log) × (s ≡ fetched logs)))
Stage-cases waiting = inl refl
Stage-cases fetching = inr (inl refl)
Stage-cases (fetched logs) = inr (inr (logs, refl))

module _ (D : Disk) (c : Codec) (output_dir : String)
    (get_logs : List Address → ℕ → ℕ → Exec D.World (List Log)) (addresses : List Address)
    (parallelism : ℕ) (ranges : List (ℕ × ℕ)) where
  moved :
      (p : Pool D.World) (before : List Task) (t : Task) (after : List Task) (s : Stage)
      → p.running ≡ before ++ t ∷ after
      → ranges_of (before ++ record t { stage = s } ∷ after) ≡ ranges_of p.running
  moved p before t after s e = sym (ap ranges_of e ∙ simp map-append)

  poll_task-IsOrderly :
      (before : List Task) (t : Task) (after : List Task) (p : Pool D.World)
      → p.running ≡ before ++ t ∷ after
      → IsOrderly parallelism ranges p
      → IsOrderly parallelism ranges (poll_task D c output_dir get_logs addresses before t after p)
  unfolding poll_task
  poll_task-IsOrderly before t after p e h = elim (Stage-cases t.stage) [
    | inl s ↦ elim (Option-cases (RateLimiter.acquire p.limiter)) [
      | inl a ↦ rw (s, a, poll_task) h
      | inr (limiter, a) ↦
          rw (s, a, poll_task)
            (keep-IsOrderly parallelism ranges p _ refl refl (moved p before t after fetching e) h)
    ]
    | inr (inl s) ↦
        elim (Result-cases (get_logs addresses t.range.0 t.range.1 p.progress.world).0) [
          | inl (logs, r) ↦
              rw (s, r, poll_task)
                (keep-IsOrderly parallelism ranges p _ refl refl
                  (moved p before t after (fetched logs) e) h)
          | inr (error, r) ↦
              rw (s, r, poll_task)
                (finish-IsOrderly parallelism ranges p _ before t after e refl refl refl h)
        ]
    | inr (inr (logs, s)) ↦
        rw (s, poll_task)
          (finish-IsOrderly parallelism ranges p _ before t after e refl refl refl h)
  ]

  step-IsOrderly :
      (event : Event) (p : Pool D.World)
      → IsOrderly parallelism ranges p
      → IsOrderly parallelism ranges (step D c output_dir get_logs addresses parallelism event p)
  unfolding step
  step-IsOrderly starts p h = start_next-IsOrderly parallelism ranges p h
  step-IsOrderly (polls i) p h = elim (Option-cases (split_at i p.running)) [
    | inl e ↦ rw (e, step) h
    | inr ((before, t, after), e) ↦
        rw (e, step)
          (poll_task-IsOrderly before t after p (split_at-append i p.running before after t e) h)
  ]
  step-IsOrderly (limits t) p h = record { bounded = h.bounded; conserved = h.conserved }

  run_pool-IsOrderly :
      (events : List Event) (p : Pool D.World)
      → IsOrderly parallelism ranges p
      → IsOrderly parallelism ranges
          (run_pool D c output_dir get_logs addresses parallelism events p)
  unfolding run_pool
  run_pool-IsOrderly [] p h = h
  run_pool-IsOrderly (event ∷ events) p h = run_pool-IsOrderly events _ (step-IsOrderly event p h)

  start_pool-IsOrderly :
      (config : BackfillConfig) (world : D.World)
      → IsOrderly parallelism ranges (start_pool config ranges world)
  unfolding start_pool
  start_pool-IsOrderly config world = record { bounded = omega arith; conserved = Perm.refl ranges }

  -- From the start of the run, after any events: at most `parallelism` chunks are under way, and the
  -- finished chunks, those under way and those to come are together the chunks of the range, each
  -- once.
  pub run_pool-start_pool-IsOrderly :
      (config : BackfillConfig) (world : D.World) (events : List Event)
      → IsOrderly parallelism ranges (
          run_pool D c output_dir get_logs addresses parallelism events
            (start_pool config ranges world))
  run_pool-start_pool-IsOrderly config world events =
      run_pool-IsOrderly events (start_pool config ranges world) (start_pool-IsOrderly config world)
