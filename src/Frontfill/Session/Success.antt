-- ===== src/Frontfill/Session/Success.antt =====
-- A live run does not fail by itself: where the logs are in order and the sink works, it returns
-- `Ok` at the signal.
use polymarket_indexer.Prelude.{
  ◌≡◌, ◌⊎◌, refl, ap, ◌∙◌, none, some, true, false, List, [], ◌∷◌, arith, All, inl, inr, ◌==◌, ◌<◌,
}
use polymarket_indexer.Prelude.Outcome.{Result, ok}
use polymarket_indexer.Storage.Sink.{EventSink}
use polymarket_indexer.Contracts.{Address}
use polymarket_indexer.Decode.{Codec}
use polymarket_indexer.Frontfill.Auth.{WsConnect, Filter, build_filter}
use polymarket_indexer.Frontfill.Live.{Live, handle_log, shut_down}
use polymarket_indexer.Frontfill.Live.Success.{Works, IsInOrder, handle_log-IsGood, shut_down-ok}
use polymarket_indexer.Frontfill.Session.{
  Item, arrived, ctrl_c, Attempt, refused, unsubscribed, subscribed, Config, Session, Returned,
  set_connected, follow, after_stream, connect, subscribe, attempt_once, run_attempts, run,
}
use polymarket_indexer.Frontfill.Session.Delivery.Signals.{any_signals, run-returns}

module _ (C : Codec) where
  -- The logs are in order, and `ctrl_c` itself does not fail.
  abbrev pub IsItemInOrder : Item → Type 0
  IsItemInOrder (arrived clock log) = IsInOrder C log
  IsItemInOrder (ctrl_c signal) = signal ≡ ok tt

  abbrev pub IsAttemptInOrder : Attempt → Type 0
  IsAttemptInOrder refused = Unit
  IsAttemptInOrder unsubscribed = Unit
  IsAttemptInOrder (subscribed items) = All IsItemInOrder items

module _ (S : EventSink) (works : Works S) (C : Codec) (contracts : Result (List Address))
    (config : Config) where
  open works use {IsGood}

  -- The run goes on with a sink that is good, or has returned `Ok`.
  abbrev GoesWell : Returned → S.State → Type 0
  GoesWell r s = ((r ≡ none) × IsGood s) ⊎ (r ≡ some (ok tt))

  follow-GoesWell :
      (items : List Item) (w : Live S.State)
      → All (IsItemInOrder C) items
      → IsGood w.storage
      → GoesWell
          (follow S C contracts config items w).0
          (follow S C contracts config items w).1.storage
  unfolding follow
  follow-GoesWell [] w h good = inl (refl, good)
  follow-GoesWell (arrived clock log ∷ items) w h good =
      let (handled, after) = handle_log-IsGood S works C config.flush_blocks clock log w h.0 good in
      rw (handled, follow)
        (follow-GoesWell items (handle_log S C config.flush_blocks clock log w).1 h.1 after)
  follow-GoesWell (ctrl_c signal ∷ items) w h good = inr (
      ap (λ r. some (shut_down S C config.flush_blocks r w).0) h.0
      ∙ ap some (shut_down-ok S works C config.flush_blocks w good))

  after_stream-GoesWell :
      (r : Returned × Live S.State) (s : Session S.State)
      → GoesWell r.0 r.1.storage
      → GoesWell
          (after_stream S C contracts config r s).0
          (after_stream S C contracts config r s).1.live.storage
  unfolding after_stream
  after_stream-GoesWell (none, w) s (inl h) = inl (refl, h.1)
  after_stream-GoesWell (none, w) s (inr e) = cc
  after_stream-GoesWell (some r, w) s (inl h) = cc
  after_stream-GoesWell (some r, w) s (inr e) = inr e

  subscribe-GoesWell :
      (a : Attempt) (filter : Filter) (s : Session S.State)
      → IsAttemptInOrder C a
      → IsGood s.live.storage
      → GoesWell
          (subscribe S C contracts config a (ok filter) s).0
          (subscribe S C contracts config a (ok filter) s).1.live.storage
  unfolding subscribe
  subscribe-GoesWell refused filter s h good = inl (refl, good)
  subscribe-GoesWell unsubscribed filter s h good = inl (refl, good)
  subscribe-GoesWell (subscribed items) filter s h good =
      let w = set_connected 1 s.live in
      after_stream-GoesWell (follow S C contracts config items w) _ (follow-GoesWell items w h good)

  module _ (target : WsConnect) (connects : connect S C contracts config ≡ ok target)
      (filter : Filter) (filters : build_filter contracts config.start_block ≡ ok filter) where
    attempt_once-GoesWell :
        (a : Attempt) (s : Session S.State)
        → IsAttemptInOrder C a
        → IsGood s.live.storage
        → GoesWell
            (attempt_once S C contracts config a s).0
            (attempt_once S C contracts config a s).1.live.storage
    unfolding attempt_once
    attempt_once-GoesWell a s h good =
        rw (connects, filters, attempt_once) (subscribe-GoesWell a filter s h good)

    run_attempts-GoesWell :
        (attempts : List Attempt) (s : Session S.State)
        → All (IsAttemptInOrder C) attempts
        → IsGood s.live.storage
        → GoesWell
            (run_attempts S C contracts config attempts s).0
            (run_attempts S C contracts config attempts s).1.live.storage
    unfolding run_attempts
    run_attempts-GoesWell [] s h good = inl (refl, good)
    run_attempts-GoesWell (a ∷ rest) s h good = elim (attempt_once-GoesWell a s h.0 good) [
      | inl (e, good') ↦
          rw (e, run_attempts)
            (run_attempts-GoesWell rest (attempt_once S C contracts config a s).1 h.1 good')
      | inr e ↦ inr (rw (e, run_attempts) refl)
    ]

    pub run_ok :
        (attempts : List Attempt) (s : Session S.State)
        → 0 < config.flush_blocks
        → All (IsAttemptInOrder C) attempts
        → IsGood s.live.storage
        → any_signals attempts ≡ true
        → (run S C contracts config attempts s).0 ≡ some (ok tt)
    unfolding run
    run_ok attempts s positive h good signalled =
        let flush : (config.flush_blocks == 0) ≡ false = ground arith in
        let (r, returned) = run-returns S C contracts config attempts s signalled in
        elim (run_attempts-GoesWell attempts s h good) [
          | inl (still, _) ↦
              let open_ended : (run S C contracts config attempts s).0 ≡ none =
                rw (flush, run) still in
              let absurd : ⊥ = cc in elim absurd [ ]
          | inr done ↦ rw (flush, run) done
        ]
