-- ===== src/Backfill/RateLimiter.antt =====
-- `RateLimiter` of src/backfill.rs: a semaphore that a background task refills once a second.
pub mod Bounds
use polymarket_indexer.Prelude.{
  ℕ, zero, suc, ◌+◌, ◌-◌, List, [], ◌∷◌, Option, none, some, ltb, if◌then◌else◌,
}

-- `reading` holds what the refill task has read of the semaphore and not yet acted on: between its
-- read and its `add_permits` other tasks may acquire.
pub record RateLimiter : Type 0 where
  pub permits : ℕ
  pub max_per_second : ℕ
  pub reading : Option ℕ

-- For limits up to `Semaphore::MAX_PERMITS`, 2^61 - 1; above it `Semaphore::new` panics.
unfoldable pub new : ℕ → RateLimiter
new max = record { permits = max; max_per_second = max; reading = none }

-- `acquire` and `forget`: `none` while the caller has to wait for a permit.
unfoldable pub acquire : RateLimiter → Option RateLimiter
acquire l = if ltb 0 l.permits then some (record l { permits = l.permits - 1 }) else none

-- `available_permits`, at a tick of the refill task.
unfoldable pub refill_read : RateLimiter → RateLimiter
refill_read l = record l { reading = some l.permits }

-- The test on what was read, and `add_permits`.
unfoldable pub refill_add : RateLimiter → RateLimiter
refill_add l = elim l.reading [
  | none ↦ l
  | some available ↦
      if ltb available l.max_per_second
      then record l { permits = l.permits + (l.max_per_second - available); reading = none }
      else record l { reading = none }
]

-- What the scheduler may let happen next.
pub data Turn : Type 0 where
  acquires reads adds : Turn

unfoldable pub turn : Turn → RateLimiter → RateLimiter
turn acquires l = elim (acquire l) [ none ↦ l | some l' ↦ l' ]
turn reads l = refill_read l
turn adds l = refill_add l

unfoldable pub run_turns : List Turn → RateLimiter → RateLimiter
run_turns [] l = l
run_turns (t ∷ ts) l = run_turns ts (turn t l)

unfoldable pub granted : Turn → RateLimiter → ℕ
granted acquires l = elim (acquire l) [ none ↦ 0 | some _ ↦ 1 ]
granted _ l = 0

-- How many acquisitions of a run succeed, and how many refills it has.
unfoldable pub acquired : List Turn → RateLimiter → ℕ
unfolding granted
acquired [] l = 0
acquired (t ∷ ts) l = granted t l + acquired ts (turn t l)

unfoldable pub refills : List Turn → ℕ
refills [] = 0
refills (adds ∷ ts) = suc (refills ts)
refills (_ ∷ ts) = refills ts
