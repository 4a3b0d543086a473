-- ===== src/Metrics/Tasks.antt =====
-- The two tasks of src/metrics.rs that are spawned with a oneshot channel, and how they are shut down.
use polymarket_indexer.Prelude.{ℕ, ◌/◌, Bool, true, false, Option, none, some, if◌then◌else◌}
use polymarket_indexer.Prelude.Outcome.{Result, ok, err}

-- A task that runs until its receiver has a message.
pub record Task : Type 0 where
  pub is_told : Bool
  pub has_ended : Bool

abbrev pub spawned : Task
spawned = record { is_told = false; has_ended = false }

-- Its next turn, at its `select!` or in the graceful shutdown of the server.
unfoldable pub poll : Task → Task
poll t = if t.is_told then record t { has_ended = true } else t

-- `.await` on the task, which returns where it has ended.
unfoldable pub join : Task → Option Task
unfolding poll
join t = let t' = poll t in if t'.has_ended then some t' else none

-- `shutdown_tx.take()`, `send`, and `task.await`.
unfoldable pub stop : Option (Unit {0}) → Task → Option Task
unfolding join
stop (some _) t = join (record t { is_told = true })
stop none t = join t

pub record RateUpdaterHandle : Type 0 where
  pub shutdown_tx : Option (Unit {0})
  pub task : Task

-- `RateUpdaterHandle::shutdown`
unfoldable pub shut_down_updater : RateUpdaterHandle → Option RateUpdaterHandle
unfolding stop
shut_down_updater handle = elim (stop handle.shutdown_tx handle.task) [
  | none ↦ none
  | some t ↦ some (record { shutdown_tx = none; task = t })
]

-- `current_unix_timestamp_seconds`, from the nanoseconds since the epoch: 0 for a clock before it.
unfoldable pub current_unix_timestamp_seconds : Result ℕ → ℕ
current_unix_timestamp_seconds (ok nanos) = nanos / 1_000_000_000
current_unix_timestamp_seconds (err _) = 0
