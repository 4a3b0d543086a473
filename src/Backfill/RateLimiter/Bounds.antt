-- ===== src/Backfill/RateLimiter/Bounds.antt =====
-- The limiter never holds more than a second's permits, and grants at most that many for each refill,
-- however its two tasks are interleaved.
use polymarket_indexer.Prelude.{
  ℕ, ◌+◌, ◌*◌, ◌≤◌, ◌≡◌, refl, List, [], ◌∷◌, some, arith, Option-cases, inl, inr,
}
use mathlib.Core.Path.{subst}
use polymarket_indexer.Backfill.RateLimiter.{
  RateLimiter, Turn, acquires, reads, adds, new, acquire, refill_read, refill_add, turn, run_turns,
  granted, acquired, refills,
}

-- No more permits than the limit, and no more than the refill task has read.
pub record IsBounded (l : RateLimiter) : Type 0 where
  pub limited : l.permits ≤ l.max_per_second
  pub read : (n : ℕ) → l.reading ≡ some n → l.permits ≤ n

turn-IsBounded : (t : Turn) (l : RateLimiter) → IsBounded l → IsBounded (turn t l)
unfolding turn acquire refill_read refill_add
turn-IsBounded acquires l b = record {
  limited = ground (arith, b.limited);
  read = λ n h. ground (arith, b.read n, b.limited);
}
turn-IsBounded reads l b = record { limited = b.limited; read = λ n h. ground arith }
turn-IsBounded adds l b = elim (Option-cases l.reading) [
  | inl e ↦ record { limited = ground (arith, b.limited); read = λ n h. ground arith }
  | inr (a, e) ↦ record {
    limited = ground (arith, b.limited, b.read a e);
    read = λ n h. ground arith;
  }
]

-- From a limiter within its limit, whatever the schedule, the permits stay within the limit.
pub run_turns-IsBounded :
    (ts : List Turn) (l : RateLimiter) → IsBounded l → IsBounded (run_turns ts l)
unfolding run_turns
run_turns-IsBounded [] l b = b
run_turns-IsBounded (t ∷ ts) l b = run_turns-IsBounded ts (turn t l) (turn-IsBounded t l b)

pub new-IsBounded : (max : ℕ) → IsBounded (new max)
unfolding new
new-IsBounded max = record { limited = omega arith; read = λ n h. cc }

pub max_per_second-turn :
    (t : Turn) (l : RateLimiter) → (turn t l).max_per_second ≡ l.max_per_second
unfolding turn acquire refill_read refill_add
max_per_second-turn acquires l = ground arith
max_per_second-turn reads l = refl
max_per_second-turn adds l = ground arith

pub granted-turn :
    (t : Turn) (l : RateLimiter)
    → granted t l + (turn t l).permits ≤ l.permits + l.max_per_second * refills (t ∷ [])
unfolding granted turn acquire refill_read refill_add refills
granted-turn acquires l = ground arith
granted-turn reads l = ground arith
granted-turn adds l = ground arith

refills-cons : (t : Turn) (ts : List Turn) → refills (t ∷ ts) ≡ refills (t ∷ []) + refills ts
unfolding refills
refills-cons adds ts = omega arith
refills-cons acquires ts = omega arith
refills-cons reads ts = omega arith

-- A run grants at most the permits that were there, and one limit for each refill.
pub acquired-le :
    (ts : List Turn) (l : RateLimiter) → acquired ts l ≤ l.permits + l.max_per_second * refills ts
unfolding acquired
acquired-le [] l = omega arith
acquired-le (t ∷ ts) l =
    let ih : acquired ts (turn t l) ≤ (turn t l).permits + l.max_per_second * refills ts =
      subst (λ max. acquired ts (turn t l) ≤ (turn t l).permits + max * refills ts)
        (max_per_second-turn t l) (acquired-le ts (turn t l)) in
    rw refills-cons (omega (arith, ih, granted-turn t l))

-- A new limiter grants at most its limit once, and once more for each refill.
pub acquired-new-le : (ts : List Turn) (max : ℕ) → acquired ts (new max) ≤ max * (refills ts + 1)
unfolding new
acquired-new-le ts max = omega (arith, acquired-le ts (new max))
