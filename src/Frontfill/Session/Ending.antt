-- ===== src/Frontfill/Session/Ending.antt =====
-- How a live run ends.
use polymarket_indexer.Prelude.{
  none, some, List, [], ◌∷◌, ◌≡◌, inl, inr, refl, ◌==◌, arith, Option-cases, Bool-cases, ◌∙◌,
}
use polymarket_indexer.Prelude.Outcome.{Result, ok, err, Result-cases}
use polymarket_indexer.Storage.Sink.{EventSink}
use polymarket_indexer.Contracts.{Address}
use polymarket_indexer.Decode.{Codec}
use polymarket_indexer.Frontfill.Auth.{Filter, build_filter}
use polymarket_indexer.Frontfill.Live.{Live, handle_log, shut_down}
use polymarket_indexer.Frontfill.Session.{
  Item, arrived, ctrl_c, Attempt, refused, unsubscribed, subscribed, Config, Session, set_connected,
  follow, after_stream, connect, subscribe, attempt_once, run_attempts, run, Returned,
}

module _ (S : EventSink) (C : Codec) (contracts : Result (List Address)) (config : Config) where
  -- The last call on the sink was a `close` that succeeded.
  pub IsClosed : S.State → Type 0
  IsClosed s = (before : S.State) × ((S.close before).0 ≡ ok tt) × (s ≡ (S.close before).1)

  shut_down-IsClosed :
      (signal : Result (Unit {0})) (w : Live S.State)
      → (shut_down S C config.flush_blocks signal w).0 ≡ ok tt
      → IsClosed (shut_down S C config.flush_blocks signal w).1.storage
  unfolding shut_down IsClosed
  shut_down-IsClosed (ok tt) w h = elim (Result-cases (S.close w.storage).0) [
    | inl (_, e) ↦ (w.storage, e, rw (e, shut_down) refl)
    | inr (_, e) ↦ ground arith
  ]
  shut_down-IsClosed (err e) w h = ground arith

  follow-IsClosed :
      (items : List Item) (w : Live S.State)
      → (follow S C contracts config items w).0 ≡ some (ok tt)
      → IsClosed (follow S C contracts config items w).1.storage
  unfolding follow
  follow-IsClosed [] w = λ h. cc
  follow-IsClosed (arrived clock log ∷ items) w =
      elim (Result-cases (handle_log S C config.flush_blocks clock log w).0) [
        | inl (_, e) ↦
            rw (e, follow)
              (follow-IsClosed items (handle_log S C config.flush_blocks clock log w).1)
        | inr (_, e) ↦ rw (e, follow) (λ h. cc)
      ]
  follow-IsClosed (ctrl_c signal ∷ items) w = λ h. shut_down-IsClosed signal w (cc)

  after_stream-IsClosed :
      (p : Returned × Live S.State) (s : Session S.State)
      → (p.0 ≡ some (ok tt) → IsClosed p.1.storage)
      → (after_stream S C contracts config p s).0 ≡ some (ok tt)
      → IsClosed (after_stream S C contracts config p s).1.live.storage
  unfolding after_stream
  after_stream-IsClosed (none, w) s k h = cc
  after_stream-IsClosed (some r, w) s k h = k h

  subscribe-IsClosed :
      (a : Attempt) (filter : Result Filter) (s : Session S.State)
      → (subscribe S C contracts config a filter s).0 ≡ some (ok tt)
      → IsClosed (subscribe S C contracts config a filter s).1.live.storage
  unfolding subscribe
  subscribe-IsClosed refused f s h = cc
  subscribe-IsClosed unsubscribed (ok _) s h = cc
  subscribe-IsClosed unsubscribed (err e) s h = cc
  subscribe-IsClosed (subscribed items) (err e) s h = cc
  subscribe-IsClosed (subscribed items) (ok _) s h =
      after_stream-IsClosed (follow S C contracts config items (set_connected 1 s.live)) _
        (follow-IsClosed items (set_connected 1 s.live)) h

  attempt_once-IsClosed :
      (a : Attempt) (s : Session S.State)
      → (attempt_once S C contracts config a s).0 ≡ some (ok tt)
      → IsClosed (attempt_once S C contracts config a s).1.live.storage
  unfolding attempt_once
  attempt_once-IsClosed a s = elim (Result-cases (connect S C contracts config)) [
    | inl (_, e) ↦
        rw (e, attempt_once) (subscribe-IsClosed a (build_filter contracts config.start_block) s)
    | inr (_, e) ↦ rw (e, attempt_once) (λ h. cc)
  ]

  run_attempts-IsClosed :
      (attempts : List Attempt) (s : Session S.State)
      → (run_attempts S C contracts config attempts s).0 ≡ some (ok tt)
      → IsClosed (run_attempts S C contracts config attempts s).1.live.storage
  unfolding run_attempts
  run_attempts-IsClosed [] s = λ h. cc
  run_attempts-IsClosed (a ∷ rest) s =
      elim (Option-cases (attempt_once S C contracts config a s).0) [
        | inl e ↦
            rw (e, run_attempts)
              (run_attempts-IsClosed rest (attempt_once S C contracts config a s).1)
        | inr (r, e) ↦ rw (e, run_attempts) (λ h. attempt_once-IsClosed a s (e ∙ h))
      ]

  -- Whatever the attempts and their streams, `run` returns `Ok` only after the sink was closed: the
  -- sink is in the state that a successful `close` left.
  pub run-IsClosed :
      (attempts : List Attempt) (s : Session S.State)
      → (run S C contracts config attempts s).0 ≡ some (ok tt)
      → IsClosed (run S C contracts config attempts s).1.live.storage
  unfolding run
  run-IsClosed attempts s = elim (Bool-cases (config.flush_blocks == 0)) [
    | inl e ↦ rw e (λ h. cc)
    | inr e ↦ rw e (run_attempts-IsClosed attempts s)
  ]
