-- ===== src/Commands/Success.antt =====
-- The live program as a whole, where the logs are in order and the sink works.
use polymarket_indexer.Prelude.{◌<◌, ◌≡◌, Option, some, true, List, All}
use polymarket_indexer.Prelude.Outcome.{Result, ok}
use polymarket_indexer.Contracts.{Address}
use polymarket_indexer.Decode.{Codec}
use polymarket_indexer.Metrics.{FrontfillMetrics}
use polymarket_indexer.Frontfill.Auth.{WsConnect, Filter, build_ws_connect, build_filter}
use polymarket_indexer.Frontfill.Session.{Attempt}
use polymarket_indexer.Frontfill.Session.Delivery.Signals.{any_signals}
use polymarket_indexer.Frontfill.Session.Success.{IsAttemptInOrder}
use polymarket_indexer.Frontfill.Start.{SinkConfig, Host, Worlds, start_metrics}
use polymarket_indexer.Frontfill.Start.Success.{IsReady, run_finishes}
use polymarket_indexer.Commands.{Args, choose_sink, frontfill_config, main}

module _ (H : Host) (C : Codec) (contracts : Result (List Address)) where
  -- The live program returns `Ok` once a signal has come on some stream, if the calls of the sink that
  -- the options ask for return (all calls on the disk, or, with the feature `kafka`, all calls on the
  -- brokers and all encodings of records that fit their schema), the flush blocks are positive, the
  -- metrics can be started or are disabled, the credentials and the filter can be built, each log of
  -- the streams has its metadata and does not fail to decode, and `ctrl_c` returns.
  pub main_succeeds :
      (args : Args) (attempts : List Attempt) (w : Worlds H) (sink : SinkConfig)
      → (runtime : Option FrontfillMetrics) (target : WsConnect) (filter : Filter)
      → choose_sink args ≡ ok sink
      → IsReady H sink
      → 0 < args.flush_blocks
      → build_ws_connect args.rpc_url args.rpc_auth_key args.rpc_auth_header args.rpc_auth_scheme
        ≡ ok target
      → build_filter contracts args.frontfill_start_block ≡ ok filter
      → (start_metrics H (frontfill_config args sink) w).0 ≡ ok runtime
      → All (IsAttemptInOrder C) attempts
      → any_signals attempts ≡ true
      → (main H C contracts args attempts w).0 ≡ some (ok tt)
  unfolding main frontfill_config
  main_succeeds args attempts w sink runtime target filter chosen ready positive connects filters
        started in_order signalled =
      rw (chosen, main)
        (run_finishes H C contracts (frontfill_config args sink) attempts w runtime target filter
          ready positive connects filters started in_order signalled)
