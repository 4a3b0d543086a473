-- ===== src/Backfill/Run/Requests/Limit.antt =====
-- A run makes one request for each chunk, and no more than the limit allows.
use mathlib.Core.Path.{subst}
use polymarket_indexer.Prelude.{
  ℕ, ◌+◌, ◌*◌, ◌≤◌, String, ◌≡◌, refl, List, [], ◌∷◌, arith, length, inl, inr, Option-cases,
}
use polymarket_indexer.Prelude.Exec.{Exec}
use polymarket_indexer.Contracts.{Address}
use polymarket_indexer.Storage.Arrow.{Disk}
use polymarket_indexer.Decode.{Log, Codec}
use polymarket_indexer.Backfill.RateLimiter
use polymarket_indexer.Backfill.RateLimiter.{RateLimiter, Turn, acquires, reads, adds, turn}
use polymarket_indexer.Backfill.RateLimiter.Bounds.{granted-turn, max_per_second-turn}
use polymarket_indexer.Backfill.Run.{
  BackfillConfig, Pool, Event, starts, polls, limits, split_at, start_pool, step, run_pool,
}
use polymarket_indexer.Backfill.Run.Requests.{
  refills, requested, unasked, held, requests, Accounts, same-Accounts, start_next-Accounts,
}
use polymarket_indexer.Backfill.Run.Requests.Polls.{poll_task-Accounts}

module _ (D : Disk) (c : Codec) (output_dir : String)
    (get_logs : List Address → ℕ → ℕ → Exec D.World (List Log)) (addresses : List Address)
    (parallelism : ℕ) where
  step-Accounts :
      (event : Event) (p : Pool D.World)
      → Accounts D c output_dir get_logs addresses parallelism event p
          (step D c output_dir get_logs addresses parallelism event p)
  unfolding step refills
  step-Accounts starts p = start_next-Accounts D c output_dir get_logs addresses parallelism p
  step-Accounts (polls i) p = elim (Option-cases (split_at i p.running)) [
    | inl e ↦
        same-Accounts D c output_dir get_logs addresses parallelism (polls i) p _
          (rw (e, requested) refl) (ground arith)
    | inr ((before, t, after), e) ↦
        rw (e, step)
          (poll_task-Accounts D c output_dir get_logs addresses parallelism i before t after p e)
  ]
  step-Accounts (limits t) p = record {
    paid = omega (arith, granted-turn t p.limiter);
    asked = omega arith;
    limit = max_per_second-turn t p.limiter;
  }

  refills-cons : (e : Event) (es : List Event) → refills (e ∷ es) ≡ refills (e ∷ []) + refills es
  unfolding refills
  refills-cons starts es = omega arith
  refills-cons (polls i) es = omega arith
  refills-cons (limits t) es = omega arith

  requests-le :
      (events : List Event) (p : Pool D.World)
      → requests D c output_dir get_logs addresses parallelism events p
        ≤ held p + p.limiter.max_per_second * refills events
  unfolding requests
  requests-le [] p = omega arith
  requests-le (event ∷ events) p =
      let q = step D c output_dir get_logs addresses parallelism event p in
      let accounts = step-Accounts event p in
      let ih : requests D c output_dir get_logs addresses parallelism events q
          ≤ held q + p.limiter.max_per_second * refills events =
        subst
          (λ max.
            requests D c output_dir get_logs addresses parallelism events q
            ≤ held q + max * refills events)
          accounts.limit (requests-le events q) in
      rw refills-cons (omega (arith, ih, accounts.paid))

  unasked-run_pool :
      (events : List Event) (p : Pool D.World)
      → requests D c output_dir get_logs addresses parallelism events p
          + unasked (run_pool D c output_dir get_logs addresses parallelism events p)
        ≡ unasked p
  unfolding requests run_pool
  unasked-run_pool [] p = omega arith
  unasked-run_pool (event ∷ events) p =
      let q = step D c output_dir get_logs addresses parallelism event p in
      omega (arith, (step-Accounts event p).asked, unasked-run_pool events q)

  -- Whatever the order of events, a run makes one request for each chunk: the requests so far and
  -- the chunks that are still to be requested are together the chunks. And it makes at most as many
  -- as the limit, and once more for each refill.
  pub requests-start_pool :
      (config : BackfillConfig) (ranges : List (ℕ × ℕ)) (world : D.World) (events : List Event)
      → let start = start_pool config ranges world in
        (requests D c output_dir get_logs addresses parallelism events start
            + unasked (run_pool D c output_dir get_logs addresses parallelism events start)
          ≡ length ranges)
        × (requests D c output_dir get_logs addresses parallelism events start
            ≤ config.rate_limit_per_second * (refills events + 1))
  unfolding start_pool RateLimiter.new
  requests-start_pool config ranges world events =
      let start : Pool D.World = start_pool config ranges world in
      (omega (arith, unasked-run_pool events start), omega (arith, requests-le events start))
