-- ===== src/Frontfill/Live/Rotation.antt =====
-- When a log makes the sink rotate, and when the next rotation is due.
use polymarket_indexer.Prelude.{ℕ, ◌-◌, ◌<◌, ◌≡◌, some, ◌++◌, map, u64_mod}
use polymarket_indexer.Prelude.Outcome.{ok}
use polymarket_indexer.Storage.Sink.{EventSink}
use polymarket_indexer.Storage.Calls.{write, Reaches}
use polymarket_indexer.Decode.{Log, Codec}
use polymarket_indexer.Frontfill.Live.{Live, Clock, handle_log}
use polymarket_indexer.Frontfill.Live.Safety.{handle_log-next_rotation_block}
use polymarket_indexer.Frontfill.Live.Delivery.{rotations, log_events, handle_log-Reaches}

module _ (S : EventSink) (C : Codec) (flush_blocks : ℕ) where
  -- With positive flush blocks and below the top of `u64`, a log that was handled has rotated the sink
  -- exactly if the block set for it was reached, before the write of its event, and has made no other
  -- call on the sink; it leaves a block for the next rotation beyond its own.
  pub handle_log-rotates :
      (clock : Clock) (log : Log) (w : Live S.State)
      → 0 < flush_blocks
      → ((b : ℕ) → log.block_number ≡ some b → b < u64_mod - 1)
      → (handle_log S C flush_blocks clock log w).0 ≡ ok tt
      → let n = (handle_log S C flush_blocks clock log w).1 in
        (block : ℕ) × (target : ℕ) × (log.block_number ≡ some block)
        × Reaches S
            (rotations w.next_rotation_block block ++ map write (log_events C log))
            w.storage
            n.storage
        × (n.next_rotation_block ≡ some target)
        × (block < target)
  handle_log-rotates clock log w f b h =
      let (block, placed, reach) = handle_log-Reaches S C flush_blocks clock log w h in
      let (block', placed', target, next, later) =
        handle_log-next_rotation_block S C flush_blocks clock log w f b h in
      let same : block ≡ block' = cc in (block, target, placed, reach, next, rw same later)
