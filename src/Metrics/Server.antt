-- ===== src/Metrics/Server.antt =====
-- `start_metrics_runtime`, `start_metrics_server` and `MetricsRuntime::shutdown` of src/metrics.rs.
use polymarket_indexer.Prelude.{
  arith, ℕ, String, ◌<>◌, ◌≡◌, refl, ap, sym, ◌∙◌, true, Option, some, none,
}
use polymarket_indexer.Metrics.Tasks.{
  Task, spawned, stop, join, poll, RateUpdaterHandle, shut_down_updater,
}
use polymarket_indexer.Prelude.Decimal.{decimal}
use polymarket_indexer.Prelude.Outcome.{Result, ok, err}
use polymarket_indexer.Prelude.Exec.{bind-eq-ok, Exec, lift, pure, ◌>>=◌}
use polymarket_indexer.Metrics.{FrontfillMetrics, HealthState, shared_health}
use polymarket_indexer.Metrics.Registry.{Prometheus, register}

-- What the program uses of the network: `SocketAddr` and `TcpListener`.
pub record Network : Type 1 where
  pub World : Type 0
  pub Address : Type 0
  pub Listener : Type 0
  pub parse_address : String → Result Address
  pub bind : Address → Exec World Listener

module _ (P : Prometheus) where
  pub record AppState : Type 0 where
    pub registry : P.Registry
    pub health : HealthState

module _ (P : Prometheus) (N : Network) where
  -- The server that was spawned, with where it listens and what its handlers read.
  pub record MetricsServerHandle : Type 0 where
    pub shutdown_tx : Option (Unit {0})
    pub task : Task
    pub listener : N.Listener
    pub app : AppState P

  pub record MetricsRuntime : Type 0 where
    pub metrics : FrontfillMetrics
    pub server_handle : MetricsServerHandle
    pub rate_handle : RateUpdaterHandle

  unfoldable pub start_metrics_server :
      P.Registry → HealthState → String → ℕ → Exec N.World MetricsServerHandle
  start_metrics_server registry health bind port = do
    address ← lift (N.parse_address (bind <> ":" <> decimal port))
    listener ← N.bind address
    pure (record {
      shutdown_tx = some tt;
      task = spawned;
      listener = listener;
      app = record { registry = registry; health = health };
    })

  unfoldable pub start_metrics_runtime : String → ℕ → Exec N.World MetricsRuntime
  unfolding start_metrics_server
  start_metrics_runtime bind port = do
    metrics ← lift (register P P.new_registry).0
    let registry = (register P P.new_registry).1
    server_handle ← start_metrics_server registry shared_health bind port
    let rate_handle : RateUpdaterHandle = record { shutdown_tx = some tt; task = spawned }
    pure (record { metrics = metrics; server_handle = server_handle; rate_handle = rate_handle })

  -- `MetricsServerHandle::shutdown`
  unfoldable pub shut_down_server : MetricsServerHandle → Option MetricsServerHandle
  shut_down_server handle = elim (stop handle.shutdown_tx handle.task) [
    | none ↦ none
    | some t ↦ some (record handle { shutdown_tx = none; task = t })
  ]

  -- `MetricsRuntime::shutdown`: the updater first. `none` where a task is awaited that does not end.
  unfoldable pub shut_down_runtime : MetricsRuntime → Option MetricsRuntime
  unfolding shut_down_server
  shut_down_runtime runtime = elim (shut_down_updater runtime.rate_handle) [
    | none ↦ none
    | some rate ↦ elim (shut_down_server runtime.server_handle) [
      | none ↦ none
      | some server ↦ some (record runtime { server_handle = server; rate_handle = rate })
    ]
  ]

  -- The value of a result, or a default.
  abbrev sender_of : Option (Unit {0}) → Result MetricsServerHandle → Option (Unit {0})
  sender_of default (ok handle) = handle.shutdown_tx
  sender_of default (err _) = default

  abbrev runtime_of : MetricsRuntime → Result MetricsRuntime → MetricsRuntime
  runtime_of default (ok runtime) = runtime
  runtime_of default (err _) = default

  stop-ends :
      (tx : Option (Unit {0})) (t : Task)
      → tx ≡ some tt
      → (t' : Task) × (stop tx t ≡ some t') × (t'.has_ended ≡ true)
  unfolding stop join poll
  stop-ends none t h = cc
  stop-ends (some _) t h = (record { is_told = true; has_ended = true }, refl, refl)

  shut_down_runtime-ends :
      (runtime : MetricsRuntime) (t u : Task)
      → stop runtime.rate_handle.shutdown_tx runtime.rate_handle.task ≡ some u
      → stop runtime.server_handle.shutdown_tx runtime.server_handle.task ≡ some t
      → shut_down_runtime runtime
        ≡ some (record runtime {
          server_handle = record (runtime.server_handle) { shutdown_tx = none; task = t };
          rate_handle = record { shutdown_tx = none; task = u };
        })
  unfolding shut_down_runtime shut_down_server shut_down_updater
  shut_down_runtime-ends runtime t u rate server = ground arith

  start_metrics_server-has_sender :
      (registry : P.Registry) (health : HealthState) (bind : String) (port : ℕ) (w : N.World)
      → (handle : MetricsServerHandle)
      → (start_metrics_server registry health bind port w).0 ≡ ok handle
      → handle.shutdown_tx ≡ some tt
  unfolding start_metrics_server
  start_metrics_server-has_sender registry health bind port w handle h =
      let (address, _, h₁, _) =
        bind-eq-ok (lift (N.parse_address (bind <> ":" <> decimal port))) _ w h in
      let (listener, _, h₂, _) = bind-eq-ok (N.bind address) _ w h₁ in
      ap (sender_of (some tt)) (sym h₂)

  -- A runtime that was started can be shut down: both tasks end, and the metrics are left as they are.
  pub shut_down_runtime-start_metrics_runtime :
      (bind : String) (port : ℕ) (w : N.World) (runtime : MetricsRuntime)
      → (start_metrics_runtime bind port w).0 ≡ ok runtime
      → (stopped : MetricsRuntime) × (shut_down_runtime runtime ≡ some stopped)
        × (stopped.metrics ≡ runtime.metrics)
        × (stopped.rate_handle.task.has_ended ≡ true)
        × (stopped.server_handle.task.has_ended ≡ true)
  unfolding start_metrics_runtime shut_down_runtime shut_down_server shut_down_updater
  shut_down_runtime-start_metrics_runtime bind port w runtime h =
      let (metrics, _, h₁, _) = bind-eq-ok (lift (register P P.new_registry).0) _ w h in
      let registry = (register P P.new_registry).1 in
      let (server, served, h₂, _) =
        bind-eq-ok (start_metrics_server registry shared_health bind port) _ w h₁ in
      let rate : RateUpdaterHandle = record { shutdown_tx = some tt; task = spawned } in
      let made : MetricsRuntime = record {
        metrics = metrics;
        server_handle = server;
        rate_handle = rate;
      } in
      let sender =
        start_metrics_server-has_sender registry shared_health bind port w server served in
      let (t, ends, has_ended) = stop-ends server.shutdown_tx server.task sender in
      let (u, rate_ends, rate_ended) = stop-ends (some tt) spawned refl in
      let same : made ≡ runtime = ap (runtime_of made) h₂ in
      (
        record made {
          server_handle = record server { shutdown_tx = none; task = t };
          rate_handle = record { shutdown_tx = none; task = u };
        },
        ap shut_down_runtime (sym same) ∙ shut_down_runtime-ends made t u rate_ends ends,
        ap (λ (x : MetricsRuntime). x.metrics) same,
        rate_ended,
        has_ended,
      )
