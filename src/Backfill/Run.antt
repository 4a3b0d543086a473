-- ===== src/Backfill/Run.antt =====
-- `run` of src/backfill.rs: the checks on the configuration, the concurrent work on the chunks, and
-- the verdict.
pub mod Verdict
pub mod Schedule
pub mod Liveness
pub mod Complete
pub mod Coverage
pub mod Files
pub mod Requests
pub mod Success
use polymarket_indexer.Prelude.{
  ℕ, zero, suc, String, ◌<>◌, Bool, true, false, Option, none, some, List, [], ◌∷◌, ◌++◌, map, ltb,
  ◌==◌, ◌&&◌, is_empty, length, get_elem?, if◌then◌else◌,
}
use polymarket_indexer.Prelude.Decimal.{decimal}
use polymarket_indexer.Prelude.Outcome.{Result, ok, err, ◌>>=◌, ◌>>◌}
use polymarket_indexer.Prelude.Exec.{Exec}
use polymarket_indexer.Contracts.{Address, contract_addresses}
use polymarket_indexer.Backfill.Provider.{Http, Provider, build_provider}
use polymarket_indexer.Backfill.Chunks.{chunk_ranges}
use polymarket_indexer.Storage.Arrow.{Disk}
use polymarket_indexer.Decode.{Log, Codec}
use polymarket_indexer.Backfill.RateLimiter
use polymarket_indexer.Backfill.RateLimiter.{RateLimiter, Turn, turn}
use polymarket_indexer.Backfill.Chunk.{Progress, process_logs, fetch_failed}

pub record BackfillConfig : Type 0 where
  pub start_block : ℕ
  pub end_block : ℕ
  pub chunk_size_by_block_number : ℕ
  pub parallelism : ℕ
  pub rate_limit_per_second : ℕ
  pub rpc_http_url : String
  pub rpc_http_key : Option String
  pub rpc_http_auth_header : String
  pub rpc_http_auth_scheme : String
  pub output_dir : String

unfoldable pub guard : Bool → String → Result (Unit {0})
guard fails message = if fails then err message else ok tt

-- The tests at the top of `run`.
unfoldable pub check_config : BackfillConfig → Result (Unit {0})
unfolding guard
check_config config = do
  guard (ltb config.end_block config.start_block) "start-block must be <= end-block"
  guard (config.chunk_size_by_block_number == 0) "chunk-size-by-block-number must be > 0"
  guard (config.parallelism == 0) "parallelism must be > 0"
  guard (config.rate_limit_per_second == 0) "rate-limit-per-second must be > 0"

unfoldable pub join : String → List String → String
join separator [] = ""
join separator (x ∷ []) = x
join separator (x ∷ y ∷ rest) = x <> separator <> join separator (y ∷ rest)

-- The end of `run`.
unfoldable pub conclude : List String → Result (Unit {0})
unfolding join
conclude failures =
    if is_empty failures
    then ok tt
    else err (
        "backfill completed with "
        <> decimal (length failures)
        <> " failure(s): "
        <> join " | " failures)

-- A chunk that `for_each_concurrent` has started: it waits for a permit, or for the provider, or has
-- its logs.
pub data Stage : Type 0 where
  waiting : Stage
  fetching : Stage
  fetched : List Log → Stage

pub record Task : Type 0 where
  pub range : ℕ × ℕ
  pub stage : Stage

pub record Pool (World : Type 0) : Type 0 where
  pub pending : List (ℕ × ℕ)
  pub running : List Task
  pub finished : List (ℕ × ℕ)
  pub limiter : RateLimiter
  pub progress : Progress World

-- What happens next: a chunk is started, a started chunk is polled, or the limiter has a turn.
pub data Event : Type 0 where
  starts : Event
  polls : ℕ → Event
  limits : Turn → Event

-- The task at an index, and those before and after it.
unfoldable pub split_at : ℕ → List Task → Option (List Task × Task × List Task)
split_at i [] = none
split_at zero (t ∷ ts) = some ([], t, ts)
split_at (suc i) (t ∷ ts) = elim (split_at i ts) [
  | none ↦ none
  | some (before, found, after) ↦ some (t ∷ before, found, after)
]

unfoldable pub start_pool : {World : Type 0} → BackfillConfig → List (ℕ × ℕ) → World → Pool World
start_pool config ranges world = record {
  pending = ranges;
  running = [];
  finished = [];
  limiter = RateLimiter.new config.rate_limit_per_second;
  progress = record { failures = []; world = world };
}

-- The stream hands out the next chunk while fewer than `parallelism` are under way.
unfoldable pub start_next : {World : Type 0} → ℕ → Pool World → Pool World
start_next parallelism p = elim p.pending [
  | [] ↦ p
  | range ∷ rest ↦
      if ltb (length p.running) parallelism
      then record p {
        pending = rest;
        running = p.running ++ record { range = range; stage = waiting } ∷ [];
      }
      else p
]

module _ (D : Disk) (c : Codec) (output_dir : String)
    (get_logs : List Address → ℕ → ℕ → Exec D.World (List Log)) (addresses : List Address) where
  open D use {World}

  -- The task stays, at another stage.
  abbrev move : List Task → Task → Stage → List Task → List Task
  move before t stage after = before ++ record t { stage = stage } ∷ after

  abbrev finish : List Task → Task → List Task → Progress World → Pool World → Pool World
  finish before t after progress p = record p {
    running = before ++ after;
    finished = p.finished ++ t.range ∷ [];
    progress = progress;
  }

  -- A poll takes a task up to its next `.await` that is not ready, or to its end.
  unfoldable pub poll_task : List Task → Task → List Task → Pool World → Pool World
  poll_task before t after p = elim t.stage [
    | waiting ↦ elim (RateLimiter.acquire p.limiter) [
      | none ↦ p
      | some limiter ↦ record p { running = move before t fetching after; limiter = limiter }
    ]
    | fetching ↦
        let (r, w) = get_logs addresses t.range.0 t.range.1 p.progress.world in
        let q : Progress World = record (p.progress) { world = w } in
        elim r [
          | ok logs ↦ record p { running = move before t (fetched logs) after; progress = q }
          | err error ↦
              finish before t after (fetch_failed D c output_dir t.range.0 t.range.1 error q) p
        ]
    | fetched logs ↦
        finish before t after (process_logs D c output_dir t.range.0 t.range.1 logs p.progress) p
  ]

  unfoldable pub step : ℕ → Event → Pool World → Pool World
  unfolding start_next split_at
  step parallelism starts p = start_next parallelism p
  step parallelism (polls i) p = elim (split_at i p.running) [
    | none ↦ p
    | some (before, t, after) ↦ poll_task before t after p
  ]
  step parallelism (limits t) p = record p { limiter = turn t p.limiter }

  unfoldable pub run_pool : ℕ → List Event → Pool World → Pool World
  run_pool parallelism [] p = p
  run_pool parallelism (e ∷ es) p = run_pool parallelism es (step parallelism e p)

  -- `run` from the client on, after `events` have happened: `none` while chunks are left.
  unfoldable pub finish_run : ℕ → Pool World → List Event → Option (Result (Unit {0}))
  finish_run parallelism start events =
      let p = run_pool parallelism events start in
      if is_empty p.pending && is_empty p.running then some (conclude p.progress.failures) else none

-- What `run` does before the first chunk.
module _ (H : Http) where
  unfoldable pub prepare : BackfillConfig → Result (Provider H × List Address)
  prepare config = do
    check_config config
    provider ←
        build_provider H config.rpc_http_url config.rpc_http_key config.rpc_http_auth_header
          config.rpc_http_auth_scheme
    addresses ← contract_addresses H.parse_address
    ok (provider, addresses)

-- `get_logs` is that of the provider that was built.
module _ (D : Disk) (c : Codec) (get_logs : List Address → ℕ → ℕ → Exec D.World (List Log)) where
  unfoldable pub run_chunks :
      BackfillConfig → List Address → List Event → D.World → Option (Result (Unit {0}))
  unfolding start_pool
  run_chunks config addresses events world =
      elim (chunk_ranges config.start_block config.end_block config.chunk_size_by_block_number) [
        | none ↦ none
        | some ranges ↦
            finish_run D c config.output_dir get_logs addresses config.parallelism
              (start_pool config ranges world) events
      ]

module _ (H : Http) (D : Disk) (c : Codec)
    (get_logs : Provider H → List Address → ℕ → ℕ → Exec D.World (List Log)) where
  unfoldable pub run : BackfillConfig → List Event → D.World → Option (Result (Unit {0}))
  unfolding prepare run_chunks
  run config events world = elim (prepare H config) [
    | err e ↦ some (err e)
    | ok (provider, addresses) ↦ run_chunks D c (get_logs provider) config addresses events world
  ]
