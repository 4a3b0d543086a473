-- ===== src/Storage/Sink.antt =====
-- The trait `EventSink`: what the live run uses of a sink.
use polymarket_indexer.Prelude.{ℕ, String, List}
use polymarket_indexer.Prelude.Exec.{Exec}

pub record EventSink : Type 1 where
  pub State : Type 0
  -- event_type, block_number, tx_hash, log_index, columns
  pub write_event : String → ℕ → String → ℕ → List (String × String) → Exec State (Unit {0})
  pub rotate : Exec State (Unit {0})
  pub close : Exec State (Unit {0})
