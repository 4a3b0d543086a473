-- ===== src/Backfill/Run/Requests/Polls.antt =====
-- A poll accounts for its permit and its request.
use polymarket_indexer.Prelude.{
  ℕ, ◌+◌, String, ◌≡◌, refl, ap, ◌∙◌, List, ◌++◌, some, arith, inl, inr, Option-cases,
}
use polymarket_indexer.Prelude.Outcome.{Result-cases}
use polymarket_indexer.Prelude.Exec.{Exec}
use polymarket_indexer.Contracts.{Address}
use polymarket_indexer.Storage.Arrow.{Disk}
use polymarket_indexer.Decode.{Log, Codec}
use polymarket_indexer.Backfill.RateLimiter
use polymarket_indexer.Backfill.RateLimiter.{RateLimiter, Turn, acquires, reads, adds, turn}
use polymarket_indexer.Backfill.Run.{
  Stage, waiting, fetching, fetched, Task, Pool, polls, split_at, poll_task,
}
use polymarket_indexer.Backfill.Run.Schedule.{Stage-cases, split_at-append}
use polymarket_indexer.Backfill.Run.Requests.{
  is_fetching, is_unasked, count, count-middle, acquire-permits, requested, Accounts, same-Accounts,
}

module _ (D : Disk) (c : Codec) (output_dir : String)
    (get_logs : List Address → ℕ → ℕ → Exec D.World (List Log)) (addresses : List Address)
    (parallelism : ℕ) where
  module _ (i : ℕ) (before : List Task) (t : Task) (after : List Task) (p : Pool D.World)
      (found : split_at i p.running ≡ some (before, t, after)) where
    -- What is counted before the poll, for the stage of the task that is polled.
    count_at :
        (f : Stage → ℕ) (s : Stage)
        → t.stage ≡ s
        → count f p.running ≡ f s + count f (before ++ after)
    count_at f s e =
        ap (count f) (split_at-append i p.running before after t found)
        ∙ count-middle f before after t
        ∙ ap (λ x. f x + count f (before ++ after)) e

    requested_at : (s : Stage) → t.stage ≡ s → requested (polls i) p ≡ is_fetching s
    requested_at s e = rw (found, requested) (ap is_fetching e)

    abbrev Polled : Type 0
    Polled =
        Accounts D c output_dir get_logs addresses parallelism (polls i) p
          (poll_task D c output_dir get_logs addresses before t after p)

    waiting-Accounts : t.stage ≡ waiting → Polled
    unfolding poll_task
    waiting-Accounts s = elim (Option-cases (RateLimiter.acquire p.limiter)) [
      | inl a ↦
          rw (s, a, poll_task)
            (same-Accounts D c output_dir get_logs addresses parallelism (polls i) p p
              (requested_at waiting s) refl)
      | inr (limiter, a) ↦
          let (permits, max) = acquire-permits p.limiter limiter a in
          let moved : Task = record t { stage = fetching } in
          rw (s, a, poll_task)
            (record {
              paid = omega (
                arith,
                requested_at waiting s,
                count_at is_fetching waiting s,
                count-middle is_fetching before after moved,
                permits,
              );
              asked = omega (
                arith,
                requested_at waiting s,
                count_at is_unasked waiting s,
                count-middle is_unasked before after moved,
              );
              limit = max;
            })
    ]

    fetching-Accounts : t.stage ≡ fetching → Polled
    unfolding poll_task
    fetching-Accounts s =
        let now = requested_at fetching s in
        elim (Result-cases (get_logs addresses t.range.0 t.range.1 p.progress.world).0) [
          | inl (logs, r) ↦
              let moved : Task = record t { stage = fetched logs } in
              rw (s, r, poll_task)
                (record {
                  paid = omega (
                    arith,
                    now,
                    count_at is_fetching fetching s,
                    count-middle is_fetching before after moved,
                  );
                  asked = omega (
                    arith,
                    now,
                    count_at is_unasked fetching s,
                    count-middle is_unasked before after moved,
                  );
                  limit = refl;
                })
          | inr (error, r) ↦
              rw (s, r, poll_task)
                (record {
                  paid = omega (arith, now, count_at is_fetching fetching s);
                  asked = omega (arith, now, count_at is_unasked fetching s);
                  limit = refl;
                })
        ]

    pub poll_task-Accounts : Polled
    unfolding poll_task
    poll_task-Accounts = elim (Stage-cases t.stage) [
      | inl s ↦ waiting-Accounts s
      | inr (inl s) ↦ fetching-Accounts s
      | inr (inr (logs, s)) ↦
          let now = requested_at (fetched logs) s in
          rw (s, poll_task)
            (record {
              paid = omega (arith, now, count_at is_fetching (fetched logs) s);
              asked = omega (arith, now, count_at is_unasked (fetched logs) s);
              limit = refl;
            })
    ]
