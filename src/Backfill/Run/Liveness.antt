-- ===== src/Backfill/Run/Liveness.antt =====
-- No schedule leads to a dead end: the work that is left can always be done.
use polymarket_indexer.Prelude.{
  ℕ, zero, suc, ◌+◌, ◌*◌, ◌≤◌, ◌<◌, String, ◌≡◌, refl, ap, ◌∙◌, some, List, [], ◌∷◌, ◌++◌, arith,
  length, inl, inr, ltb, true, Option-cases, List-cases, ◌⊎◌,
}
use polymarket_indexer.Prelude.Outcome.{Result-cases}
use polymarket_indexer.Prelude.Exec.{Exec}
use polymarket_indexer.Contracts.{Address}
use polymarket_indexer.Storage.Arrow.{Disk}
use polymarket_indexer.Decode.{Log, Codec}
use polymarket_indexer.Backfill.RateLimiter.{
  RateLimiter, reads, adds, turn, refill_read, refill_add, acquire,
}
use polymarket_indexer.Backfill.Run.{
  Stage, waiting, fetching, fetched, Task, Pool, Event, starts, polls, limits, split_at, start_next,
  poll_task, step, run_pool,
}
use polymarket_indexer.Backfill.Run.Schedule.{Stage-cases}

-- How often a task is polled before it is finished.
pub polls_left : Stage → ℕ
polls_left waiting = 3
polls_left fetching = 2
polls_left (fetched logs) = 1

pub work_of : List Task → ℕ
unfolding polls_left
work_of [] = 0
work_of (t ∷ ts) = polls_left t.stage + work_of ts

-- With a start for each chunk to come.
pub work : {World : Type 0} → Pool World → ℕ
unfolding work_of
work p = 4 * length p.pending + work_of p.running

-- A refill of a limiter with a positive limit leaves a permit.
refilled :
    (l : RateLimiter)
    → 0 < l.max_per_second
    → (l' : RateLimiter) × (acquire (turn adds (turn reads l)) ≡ some l')
      × (l'.max_per_second ≡ l.max_per_second)
unfolding acquire turn refill_read refill_add
refilled l pos = elim (Option-cases (acquire (turn adds (turn reads l)))) [
  | inl e ↦ ground arith
  | inr (l', e) ↦ (l', e, ground arith)
]

positive : (n : ℕ) → 0 < n → ltb 0 n ≡ true
positive n pos = ground arith

module _ (D : Disk) (c : Codec) (output_dir : String)
    (get_logs : List Address → ℕ → ℕ → Exec D.World (List Log)) (addresses : List Address)
    (parallelism : ℕ) (pos : 0 < parallelism) where
  abbrev after : List Event → Pool D.World → Pool D.World
  after = run_pool D c output_dir get_logs addresses parallelism

  -- Some events do a part of the work, and keep the limit.
  record Advance (p : Pool D.World) : Type 0 where
    events : List Event
    less : work (after events p) < work p
    limit : (after events p).limiter.max_per_second ≡ p.limiter.max_per_second

  step_pending :
      (p : Pool D.World) (range : ℕ × ℕ) (rest : List (ℕ × ℕ))
      → p.running ≡ []
      → p.pending ≡ range ∷ rest
      → Advance p
  unfolding run_pool step start_next work
  step_pending p range rest r e = record {
    events = starts ∷ [];
    less = rw (r, e, positive parallelism pos) (omega arith);
    limit = rw (r, e, positive parallelism pos) refl;
  }

  module _ (p : Pool D.World) (t : Task) (ts : List Task) (e : p.running ≡ t ∷ ts) where
    step_fetched : (logs : List Log) → t.stage ≡ fetched logs → Advance p
    unfolding run_pool step split_at poll_task work work_of polls_left
    step_fetched logs s = record {
      events = polls 0 ∷ [];
      less = rw (e, s, poll_task, polls_left) (omega arith);
      limit = rw (e, s, poll_task) refl;
    }

    step_fetching : t.stage ≡ fetching → Advance p
    unfolding run_pool step split_at poll_task work work_of polls_left
    step_fetching s =
        elim (Result-cases (get_logs addresses t.range.0 t.range.1 p.progress.world).0) [
          | inl (logs, r) ↦ record {
            events = polls 0 ∷ [];
            less = rw (e, s, poll_task, r, polls_left) (omega arith);
            limit = rw (e, s, poll_task, r) refl;
          }
          | inr (_, r) ↦ record {
            events = polls 0 ∷ [];
            less = rw (e, s, poll_task, r, polls_left) (omega arith);
            limit = rw (e, s, poll_task, r) refl;
          }
        ]

    step_waiting : 0 < p.limiter.max_per_second → t.stage ≡ waiting → Advance p
    unfolding run_pool step split_at poll_task work work_of polls_left
    step_waiting some_limit s =
        let (l', a, m) = refilled p.limiter some_limit in
        record {
          events = limits reads ∷ limits adds ∷ polls 0 ∷ [];
          less = rw (e, s, poll_task, a, polls_left) (omega arith);
          limit = rw (e, s, poll_task, a) m;
        }

  -- A part of the work can be done, unless there is none left.
  some_step :
      (p : Pool D.World)
      → 0 < p.limiter.max_per_second
      → ((p.pending ≡ []) × (p.running ≡ [])) ⊎ Advance p
  some_step p limit = elim (List-cases p.running) [
    | inl r ↦ elim (List-cases p.pending) [
      | inl e ↦ inl (e, r)
      | inr (range, rest, e) ↦ inr (step_pending p range rest r e)
    ]
    | inr (t, ts, e) ↦ elim (Stage-cases t.stage) [
      | inl s ↦ inr (step_waiting p t ts e limit s)
      | inr (inl s) ↦ inr (step_fetching p t ts e s)
      | inr (inr (logs, s)) ↦ inr (step_fetched p t ts e logs s)
    ]
  ]

  after-append :
      (es fs : List Event) (p : Pool D.World) → after (es ++ fs) p ≡ after fs (after es p)
  unfolding run_pool
  after-append [] fs p = refl
  after-append (e ∷ es) fs p =
      after-append es fs (step D c output_dir get_logs addresses parallelism e p)

  pub record Drains (p : Pool D.World) : Type 0 where
    pub events : List Event
    pub started : (after events p).pending ≡ []
    pub finished : (after events p).running ≡ []

  all_done_within :
      (n : ℕ) (p : Pool D.World) → work p ≤ n → 0 < p.limiter.max_per_second → Drains p
  unfolding run_pool
  all_done_within zero p bound limit = elim (some_step p limit) [
    | inl (e, r) ↦ record { events = []; started = e; finished = r }
    | inr a ↦ let less = a.less in let absurd : ⊥ = omega arith in elim absurd [ ]
  ]
  all_done_within (suc n) p bound limit = elim (some_step p limit) [
    | inl (e, r) ↦ record { events = []; started = e; finished = r }
    | inr a ↦
        let less = a.less in
        let d = all_done_within n (after a.events p) (omega arith) (rw a.limit limit) in
        record {
          events = a.events ++ d.events;
          started = ap (λ q. q.pending) (after-append a.events d.events p) ∙ d.started;
          finished = ap (λ q. q.running) (after-append a.events d.events p) ∙ d.finished;
        }
  ]

  -- With a positive parallelism and rate limit, from any state of the run there are events after
  -- which every chunk is finished: none is to come and none is under way.
  pub run_pool-Drains : (p : Pool D.World) → 0 < p.limiter.max_per_second → Drains p
  run_pool-Drains p limit = all_done_within (work p) p (omega arith) limit
