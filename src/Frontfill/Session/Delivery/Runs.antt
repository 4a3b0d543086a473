-- ===== src/Frontfill/Session/Delivery/Runs.antt =====
-- The attempts of a live run, one after another, as its sink sees them.
use mathlib.Core.List.{append-nil}
use polymarket_indexer.Prelude.{
  length, ◌≤◌, ◌*◌, ◌≡◌, refl, ◌∙◌, Bool, true, false, ◌==◌, none, some, List, [], ◌∷◌, ◌++◌,
  Option-cases, Bool-cases, inl, inr,
}
use polymarket_indexer.Storage.Calls.{
  NoClose, Call, close, events_of, call, Reaches, Reaches-cons, Reaches-append, Reaches-nil,
}
use polymarket_indexer.Prelude.Outcome.{Result, ok, err, Result-cases}
use polymarket_indexer.Storage.Sink.{EventSink}
use polymarket_indexer.Contracts.{Address}
use polymarket_indexer.Decode.{Log, Codec}
use polymarket_indexer.Frontfill.Auth.{Filter, build_filter}
use polymarket_indexer.Frontfill.Live.{Live}
use polymarket_indexer.Frontfill.Session.{
  Attempt, refused, unsubscribed, subscribed, Config, Session, Returned, set_connected, follow,
  after_stream, connect, subscribe, attempt_once, run_attempts, run,
}
use polymarket_indexer.Frontfill.Session.Events.{
  has_signal, logs_before_signal, signals, logs_of_attempt, logs_of, all_events,
}
use polymarket_indexer.Frontfill.Session.Delivery.{
  Delivers, Delivers-nil, DeliversAndCloses, prepend, follow-Delivers, follow-DeliversAndCloses,
}

module _ (S : EventSink) (C : Codec) (contracts : Result (List Address)) (config : Config) where
  -- What a turn that returned `r` did: it goes on, ends with `Ok`, or fails.
  abbrev pub Turn : Bool → List Log → S.State → Returned → S.State → Type 0
  Turn signalled logs s r u =
      (r ≡ none → (signalled ≡ false) × Delivers S C contracts config logs s u)
      × (r ≡ some (ok tt) → (signalled ≡ true) × DeliversAndCloses S C contracts config logs s u)

  after_stream-Turn :
      (signalled : Bool) (logs : List Log) (sink : S.State) (p : Returned × Live S.State)
      → (s : Session S.State) → Turn signalled logs sink p.0 p.1.storage
      → Turn signalled logs sink
          (after_stream S C contracts config p s).0
          (after_stream S C contracts config p s).1.live.storage
  unfolding after_stream
  after_stream-Turn signalled logs sink (none, w) s turn = turn
  after_stream-Turn signalled logs sink (some r, w) s turn = turn

  subscribe-Turn :
      (a : Attempt) (filter : Result Filter) (s : Session S.State)
      → Turn
          (signals a)
          (logs_of_attempt a)
          s.live.storage
          (subscribe S C contracts config a filter s).0
          (subscribe S C contracts config a filter s).1.live.storage
  unfolding subscribe signals logs_of_attempt
  subscribe-Turn refused f s =
      (λ h. (refl, Delivers-nil S C contracts config s.live.storage), λ h. cc)
  subscribe-Turn unsubscribed (ok _) s =
      (λ h. (refl, Delivers-nil S C contracts config s.live.storage), λ h. cc)
  subscribe-Turn unsubscribed (err e) s = (λ h. cc, λ h. cc)
  subscribe-Turn (subscribed items) (err e) s = (λ h. cc, λ h. cc)
  subscribe-Turn (subscribed items) (ok _) s =
      after_stream-Turn (has_signal items) (logs_before_signal items) s.live.storage
        (follow S C contracts config items (set_connected 1 s.live)) _
        (
          follow-Delivers S C contracts config items (set_connected 1 s.live),
          follow-DeliversAndCloses S C contracts config items (set_connected 1 s.live),
        )

  pub attempt_once-Turn :
      (a : Attempt) (s : Session S.State)
      → Turn
          (signals a)
          (logs_of_attempt a)
          s.live.storage
          (attempt_once S C contracts config a s).0
          (attempt_once S C contracts config a s).1.live.storage
  unfolding attempt_once
  attempt_once-Turn a s = elim (Result-cases (connect S C contracts config)) [
    | inl (_, e) ↦
        rw (e, attempt_once) (subscribe-Turn a (build_filter contracts config.start_block) s)
    | inr (_, e) ↦ rw (e, attempt_once) (λ h. cc, λ h. cc)
  ]

  run_attempts-DeliversAndCloses :
      (attempts : List Attempt) (s : Session S.State)
      → (run_attempts S C contracts config attempts s).0 ≡ some (ok tt)
      → DeliversAndCloses S C contracts config
          (logs_of attempts)
          s.live.storage
          (run_attempts S C contracts config attempts s).1.live.storage
  unfolding run_attempts logs_of
  run_attempts-DeliversAndCloses [] s = λ h. cc
  run_attempts-DeliversAndCloses (a ∷ rest) s =
      let s' = (attempt_once S C contracts config a s).1 in
      let (goes_on, ends) = attempt_once-Turn a s in
      elim (Option-cases (attempt_once S C contracts config a s).0) [
        | inl e ↦
            let (quiet, delivered) = goes_on e in
            rw (e, run_attempts, quiet)
              (λ h.
                prepend S C contracts config (logs_of_attempt a) (logs_of rest) s.live.storage
                  s'.live.storage (run_attempts S C contracts config rest s').1.live.storage
                  delivered (run_attempts-DeliversAndCloses rest s' h))
        | inr (r, e) ↦
            rw (e, run_attempts)
              (λ h. let (signalled, done) = ends (e ∙ h) in rw (signalled, append-nil) done)
      ]

  run-DeliversAndCloses :
      (attempts : List Attempt) (s : Session S.State)
      → (run S C contracts config attempts s).0 ≡ some (ok tt)
      → DeliversAndCloses S C contracts config
          (logs_of attempts)
          s.live.storage
          (run S C contracts config attempts s).1.live.storage
  unfolding run
  run-DeliversAndCloses attempts s = elim (Bool-cases (config.flush_blocks == 0)) [
    | inl e ↦ rw e (λ h. cc)
    | inr e ↦ rw e (run_attempts-DeliversAndCloses attempts s)
  ]

  -- `run` returns `Ok` only after calls on the sink that all returned, of which the last and no
  -- other is `close`, and which wrote the events of the logs before the signal, one for one and in order.
  -- There are at most two other calls for each log.
  pub run-Reaches :
      (attempts : List Attempt) (s : Session S.State)
      → (run S C contracts config attempts s).0 ≡ some (ok tt)
      → (calls : List Call) × Reaches S
          (calls ++ close ∷ [])
          s.live.storage
          (run S C contracts config attempts s).1.live.storage
        × (events_of calls ≡ all_events C (logs_of attempts))
        × NoClose calls
        × (length calls ≤ 2 * length (logs_of attempts))
  unfolding call
  run-Reaches attempts s h =
      let after = (run S C contracts config attempts s).1.live.storage in
      let done = run-DeliversAndCloses attempts s h in
      let delivered = done.delivered in
      let closing : Reaches S (close ∷ []) done.before after =
        Reaches-cons S close [] done.before after after done.closed (Reaches-nil S after) in
      (
        delivered.calls,
        Reaches-append S delivered.calls (close ∷ []) s.live.storage done.before after
            delivered.reached closing,
        delivered.written,
        delivered.stays_open,
        delivered.few,
      )
