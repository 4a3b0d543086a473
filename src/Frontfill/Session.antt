-- ===== src/Frontfill/Session.antt =====
-- The outer loop of `run` in src/frontfill.rs: connect, subscribe, follow the stream, and wait before
-- the next attempt.
pub mod Ending
pub mod Waits
pub mod Events
pub mod Delivery
pub mod Success
use polymarket_indexer.Prelude.{
  ℕ, String, Option, none, some, List, [], ◌∷◌, ◌++◌, ◌≡◌, ◌⊎◌, inl, inr, refl, ◌==◌, if◌then◌else◌,
  arith,
}
use polymarket_indexer.Prelude.Outcome.{Result, ok, err}
use polymarket_indexer.Prelude.Exec.{Exec}
use polymarket_indexer.Storage.Sink.{EventSink}
use polymarket_indexer.Contracts.{Address}
use polymarket_indexer.Decode.{Log, Codec}
use polymarket_indexer.Frontfill.Auth.{WsConnect, build_ws_connect, Filter, build_filter}
use polymarket_indexer.Frontfill.Backoff.{back_off}
use polymarket_indexer.Frontfill.Live.{Live, Clock, with_metrics, handle_log, shut_down}

-- What `select!` picks: a log, or the signal.
pub data Item : Type 0 where
  arrived : Clock → Log → Item
  ctrl_c : Result (Unit {0}) → Item

-- An attempt to connect and subscribe; the items of a stream that was opened, up to its end.
pub data Attempt : Type 0 where
  refused unsubscribed : Attempt
  subscribed : List Item → Attempt

pub record Config : Type 0 where
  pub flush_blocks : ℕ
  pub start_block : Option ℕ
  pub rpc_url : String
  pub rpc_auth_key : Option String
  pub rpc_auth_header : String
  pub rpc_auth_scheme : String

-- What `run` returned, if it did.
abbrev pub Returned : Type 0
Returned = Option (Result (Unit {0}))

-- Beside the locals of `run`: its reconnect counter, and the seconds of each wait so far.
pub record Session (Sink : Type 0) : Type 0 where
  pub live : Live Sink
  pub reconnect_attempt : ℕ
  pub waits : List ℕ

module _ {Sink : Type 0} where
  abbrev pub wait : Session Sink → Session Sink
  wait s =
      let (delay, next) = back_off s.reconnect_attempt in
      record s { reconnect_attempt = next; waits = s.waits ++ delay ∷ [] }

  abbrev pub set_connected : ℕ → Live Sink → Live Sink
  set_connected n w = with_metrics (λ m. record m { ws_connected = n }) w

module _ (S : EventSink) (C : Codec) (contracts : Result (List Address)) (config : Config) where
  -- The inner loop: `none` where the stream ended.
  unfoldable pub follow : List Item → Live S.State → Returned × Live S.State
  follow [] w = (none, w)
  follow (arrived clock log ∷ items) w = elim (handle_log S C config.flush_blocks clock log w).0 [
    | ok _ ↦ follow items (handle_log S C config.flush_blocks clock log w).1
    | err e ↦ (some (err e), (handle_log S C config.flush_blocks clock log w).1)
  ]
  follow (ctrl_c signal ∷ items) w =
      let (r, w') = shut_down S C config.flush_blocks signal w in (some r, w')

  unfoldable pub after_stream :
      Returned × Live S.State → Session S.State → Returned × Session S.State
  after_stream (none, w) s = (none, wait (record s { live = set_connected 0 w }))
  after_stream (some r, w) s = (some r, record s { live = w })

  unfoldable pub connect : Result WsConnect
  connect =
      build_ws_connect config.rpc_url config.rpc_auth_key config.rpc_auth_header
        config.rpc_auth_scheme

  unfoldable pub subscribe : Attempt → Result Filter → Session S.State → Returned × Session S.State
  unfolding follow after_stream
  subscribe refused filter s = (none, wait s)
  subscribe unsubscribed (err e) s = (some (err e), s)
  subscribe unsubscribed (ok _) s = (none, wait s)
  subscribe (subscribed items) (err e) s = (some (err e), s)
  subscribe (subscribed items) (ok _) s =
      after_stream (follow items (set_connected 1 s.live)) (record s { reconnect_attempt = 0 })

  -- One turn of the outer loop.
  unfoldable pub attempt_once : Attempt → Session S.State → Returned × Session S.State
  unfolding connect subscribe
  attempt_once a s = elim connect [
    | ok _ ↦ subscribe a (build_filter contracts config.start_block) s
    | err e ↦ (some (err e), s)
  ]

  -- The outer loop over the attempts that were made: `none` while it goes on.
  unfoldable pub run_attempts : List Attempt → Session S.State → Returned × Session S.State
  unfolding attempt_once
  run_attempts [] s = (none, s)
  run_attempts (a ∷ rest) s = elim (attempt_once a s).0 [
    | some r ↦ (some r, (attempt_once a s).1)
    | none ↦ run_attempts rest (attempt_once a s).1
  ]

  unfoldable pub run : List Attempt → Session S.State → Returned × Session S.State
  unfolding run_attempts
  run attempts s =
      if config.flush_blocks == 0
      then (some (err "flush-blocks must be greater than 0"), s)
      else run_attempts attempts s
