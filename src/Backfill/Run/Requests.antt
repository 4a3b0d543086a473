-- ===== src/Backfill/Run/Requests.antt =====
-- The rate limit, seen from the provider: how many requests a run makes.
pub mod Polls
pub mod Limit
use mathlib.Core.Path.{subst}
use polymarket_indexer.Prelude.{
  ℕ, suc, ◌+◌, ◌*◌, ◌≤◌, ◌<◌, String, ◌≡◌, refl, ap, sym, ◌∙◌, List, [], ◌∷◌, ◌++◌, none, some,
  arith, length, length-append, ltb, inl, inr, Option-cases, List-cases, Bool-cases,
}
use polymarket_indexer.Prelude.Outcome.{Result-cases}
use polymarket_indexer.Prelude.Exec.{Exec}
use polymarket_indexer.Contracts.{Address}
use polymarket_indexer.Storage.Arrow.{Disk}
use polymarket_indexer.Decode.{Log, Codec}
use polymarket_indexer.Backfill.RateLimiter
use polymarket_indexer.Backfill.RateLimiter.{RateLimiter, Turn, acquires, reads, adds, turn}
use polymarket_indexer.Backfill.RateLimiter.Bounds.{granted-turn, max_per_second-turn}
use polymarket_indexer.Backfill.Run.{
  BackfillConfig, Stage, waiting, fetching, fetched, Task, Pool, Event, starts, polls, limits,
  split_at, start_pool, start_next, poll_task, step, run_pool,
}
use polymarket_indexer.Backfill.Run.Schedule.{Stage-cases, split_at-append}

-- The refills among the events.
unfoldable pub refills : List Event → ℕ
refills [] = 0
refills (limits t ∷ events) = RateLimiter.refills (t ∷ []) + refills events
refills (_ ∷ events) = refills events

abbrev pub is_fetching : Stage → ℕ
is_fetching fetching = 1
is_fetching _ = 0

abbrev pub is_unasked : Stage → ℕ
is_unasked (fetched logs) = 0
is_unasked _ = 1

abbrev pub count : (Stage → ℕ) → List Task → ℕ
count f [] = 0
count f (t ∷ ts) = f t.stage + count f ts

pub count-append :
    (f : Stage → ℕ) (xs ys : List Task) → count f (xs ++ ys) ≡ count f xs + count f ys
count-append f [] ys = omega arith
count-append f (x ∷ xs) ys = omega (arith, count-append f xs ys)

pub count-middle :
    (f : Stage → ℕ) (before after : List Task) (t : Task)
    → count f (before ++ t ∷ after) ≡ f t.stage + count f (before ++ after)
count-middle f before after t =
    omega (arith, count-append f before (t ∷ after), count-append f before after)

pub acquire-permits :
    (l l' : RateLimiter)
    → RateLimiter.acquire l ≡ some l'
    → (suc l'.permits ≡ l.permits) × (l'.max_per_second ≡ l.max_per_second)
unfolding RateLimiter.acquire
acquire-permits l l' e = ground arith

module _ {World : Type 0} where
  -- Whether the event is a request: the poll of a task that has its permit.
  abbrev pub requested : Event → Pool World → ℕ
  requested (polls i) p = elim (split_at i p.running) [
    | none ↦ 0
    | some (before, t, after) ↦ is_fetching t.stage
  ]
  requested _ p = 0

  -- The chunks that are still to be requested.
  abbrev pub unasked : Pool World → ℕ
  unasked p = length p.pending + count is_unasked p.running

  -- The permits that are left, and those that are held for a request to come.
  abbrev pub held : Pool World → ℕ
  held p = p.limiter.permits + count is_fetching p.running

module _ (D : Disk) (c : Codec) (output_dir : String)
    (get_logs : List Address → ℕ → ℕ → Exec D.World (List Log)) (addresses : List Address)
    (parallelism : ℕ) where
  -- How many requests a run makes.
  unfoldable pub requests : List Event → Pool D.World → ℕ
  requests [] p = 0
  requests (event ∷ events) p =
      requested event p
      + requests events (step D c output_dir get_logs addresses parallelism event p)

  -- What an event does to the permits and to the chunks to be requested.
  pub record Accounts (event : Event) (p q : Pool D.World) : Type 0 where
    pub paid : requested event p + held q ≤ held p + p.limiter.max_per_second * refills (event ∷ [])
    pub asked : requested event p + unasked q ≡ unasked p
    pub limit : q.limiter.max_per_second ≡ p.limiter.max_per_second

  pub same-Accounts :
      (event : Event) (p q : Pool D.World) → requested event p ≡ 0 → q ≡ p → Accounts event p q
  same-Accounts event p q free same =
      subst (Accounts event p) (sym same)
        (record { paid = omega arith; asked = omega arith; limit = refl })

  pub start_next-Accounts : (p : Pool D.World) → Accounts starts p (start_next parallelism p)
  unfolding start_next
  start_next-Accounts p = elim (List-cases p.pending) [
    | inl e ↦ same-Accounts starts p _ refl (ground arith)
    | inr (range, rest, e) ↦ elim (Bool-cases (ltb (length p.running) parallelism)) [
      | inl l ↦
          let new : List Task = record { range = range; stage = waiting } ∷ [] in
          let q : Pool D.World = record p { pending = rest; running = p.running ++ new } in
          let to : start_next parallelism p ≡ q = ground arith in
          subst (Accounts starts p) (sym to) (record {
            paid = omega (arith, count-append is_fetching p.running new);
            asked = omega (arith, ap length e, count-append is_unasked p.running new);
            limit = refl;
          })
      | inr l ↦ same-Accounts starts p _ refl (ground arith)
    ]
  ]
