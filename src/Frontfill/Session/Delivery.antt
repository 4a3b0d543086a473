-- ===== src/Frontfill/Session/Delivery.antt =====
-- What a whole live run does to its sink.
pub mod Runs
pub mod Signals
pub mod Persistence
use polymarket_indexer.Frontfill.Session.Events.{
  logs_before_signal, has_signal, logs_of_attempt, signals, logs_of, all_events, all_events-append,
}
use mathlib.Core.List.{append_assoc, append-nil}
use polymarket_indexer.Prelude.{
  length, length-append, length-map, ◌≤◌, ◌*◌, arith, ℕ, String, ◌≡◌, refl, ap, sym, ◌∙◌, Bool,
  true, false, ◌==◌, Option, none, some, List, [], ◌∷◌, ◌++◌, map, Option-cases, Bool-cases, inl,
  inr, if◌then◌else◌,
}
use polymarket_indexer.Storage.Calls.{
  NoClose, NoClose-append, SinkEvent, Call, write, rotate, close, events_of, events_of-append, call,
  run_calls, Reaches, Reaches-append, Reaches-nil,
}
use polymarket_indexer.Frontfill.Live.Delivery.{
  rotations-NoClose, writes-NoClose, length-rotations, length-log_events, log_events, rotations,
  handle_log-Reaches, events_of-rotations, events_of-writes,
}
use polymarket_indexer.Prelude.Outcome.{Result, ok, err, Result-cases}
use polymarket_indexer.Storage.Sink.{EventSink}
use polymarket_indexer.Contracts.{Address}
use polymarket_indexer.Decode.{Log, Codec}
use polymarket_indexer.Frontfill.Auth.{Filter, build_filter}
use polymarket_indexer.Frontfill.Live.{Live, Clock, handle_log, shut_down}
use polymarket_indexer.Frontfill.Session.{
  Item, arrived, ctrl_c, Attempt, refused, unsubscribed, subscribed, Config, Session, Returned,
  set_connected, follow, after_stream, connect, subscribe, attempt_once, run_attempts, run,
}

module _ (S : EventSink) (C : Codec) (contracts : Result (List Address)) (config : Config) where
  -- Calls that all return take the sink from one state to another, and write the events of the logs.
  pub record Delivers (logs : List Log) (s t : S.State) : Type 0 where
    pub calls : List Call
    pub reached : Reaches S calls s t
    pub written : events_of calls ≡ all_events C logs
    pub stays_open : NoClose calls
    pub few : length calls ≤ 2 * length logs

  pub Delivers-nil : (s : S.State) → Delivers [] s s
  unfolding all_events events_of
  Delivers-nil s = record {
    calls = [];
    reached = Reaches-nil S s;
    written = refl;
    stays_open = tt;
    few = omega arith;
  }

  pub Delivers-append :
      (first second : List Log) (s t u : S.State)
      → Delivers first s t
      → Delivers second t u
      → Delivers (first ++ second) s u
  Delivers-append first second s t u d e = record {
    calls = d.calls ++ e.calls;
    reached = Reaches-append S d.calls e.calls s t u d.reached e.reached;
    written =
        events_of-append d.calls e.calls
        ∙ (λ i. d.written i ++ e.written i)
        ∙ sym (all_events-append C first second);
    stays_open = NoClose-append d.calls e.calls d.stays_open e.stays_open;
    few = omega (arith, d.few, e.few, length-append d.calls e.calls, length-append first second);
  }

  handle_log-Delivers :
      (clock : Clock) (log : Log) (w : Live S.State)
      → (handle_log S C config.flush_blocks clock log w).0 ≡ ok tt
      → Delivers (log ∷ []) w.storage (handle_log S C config.flush_blocks clock log w).1.storage
  unfolding all_events
  handle_log-Delivers clock log w h =
      let (block, _, reach) = handle_log-Reaches S C config.flush_blocks clock log w h in
      record {
        calls = rotations w.next_rotation_block block ++ map write (log_events C log);
        reached = reach;
        written =
            events_of-append (rotations w.next_rotation_block block) (map write (log_events C log))
            ∙ (λ i.
                events_of-rotations w.next_rotation_block block i
                ++ events_of-writes (log_events C log) i)
            ∙ sym (append-nil (log_events C log));
        stays_open =
            NoClose-append (rotations w.next_rotation_block block) (map write (log_events C log))
              (rotations-NoClose w.next_rotation_block block) (writes-NoClose (log_events C log));
        few = omega (
          arith,
          length-append (rotations w.next_rotation_block block) (map write (log_events C log)),
          length-map write (log_events C log),
          length-rotations w.next_rotation_block block,
          length-log_events C log,
        );
      }

  -- A stream that ended delivered its logs; one that a signal ended with `Ok` also closed the sink.
  pub record DeliversAndCloses (logs : List Log) (s u : S.State) : Type 0 where
    pub before : S.State
    pub delivered : Delivers logs s before
    pub closed : S.close before ≡ (ok tt, u)

  pub prepend :
      (first second : List Log) (s t u : S.State)
      → Delivers first s t
      → DeliversAndCloses second t u
      → DeliversAndCloses (first ++ second) s u
  prepend first second s t u d e = record {
    before = e.before;
    delivered = Delivers-append first second s t e.before d e.delivered;
    closed = e.closed;
  }

  pub follow-Delivers :
      (items : List Item) (w : Live S.State)
      → (follow S C contracts config items w).0 ≡ none
      → (has_signal items ≡ false)
        × Delivers
            (logs_before_signal items)
            w.storage
            (follow S C contracts config items w).1.storage
  unfolding follow logs_before_signal has_signal
  follow-Delivers [] w = λ h. (refl, Delivers-nil w.storage)
  follow-Delivers (arrived clock log ∷ items) w =
      let w' = (handle_log S C config.flush_blocks clock log w).1 in
      elim (Result-cases (handle_log S C config.flush_blocks clock log w).0) [
        | inl (_, e) ↦
            rw (e, follow)
              (λ h.
                let (quiet, rest) = follow-Delivers items w' h in
                (
                  quiet,
                  Delivers-append (log ∷ []) (logs_before_signal items) w.storage w'.storage
                      (follow S C contracts config items w').1.storage
                      (handle_log-Delivers clock log w e) rest,
                ))
        | inr (_, e) ↦ rw (e, follow) (λ h. cc)
      ]
  follow-Delivers (ctrl_c signal ∷ items) w = λ h. cc

  shut_down-storage :
      (signal : Result (Unit {0})) (w : Live S.State)
      → (shut_down S C config.flush_blocks signal w).0 ≡ ok tt
      → ((S.close w.storage).0 ≡ ok tt)
        × ((shut_down S C config.flush_blocks signal w).1.storage ≡ (S.close w.storage).1)
  unfolding shut_down
  shut_down-storage (ok _) w h = elim (Result-cases (S.close w.storage).0) [
    | inl (_, e) ↦ (e, rw (e, shut_down) refl)
    | inr (_, e) ↦ ground arith
  ]
  shut_down-storage (err e) w h = ground arith

  shut_down-closes :
      (signal : Result (Unit {0})) (w : Live S.State)
      → (shut_down S C config.flush_blocks signal w).0 ≡ ok tt
      → S.close w.storage ≡ (ok tt, (shut_down S C config.flush_blocks signal w).1.storage)
  shut_down-closes signal w h =
      let (returned, same) = shut_down-storage signal w h in λ i. (returned i, sym same i)

  pub follow-DeliversAndCloses :
      (items : List Item) (w : Live S.State)
      → (follow S C contracts config items w).0 ≡ some (ok tt)
      → (has_signal items ≡ true)
        × DeliversAndCloses
            (logs_before_signal items)
            w.storage
            (follow S C contracts config items w).1.storage
  unfolding follow logs_before_signal has_signal
  follow-DeliversAndCloses [] w = λ h. cc
  follow-DeliversAndCloses (arrived clock log ∷ items) w =
      let w' = (handle_log S C config.flush_blocks clock log w).1 in
      elim (Result-cases (handle_log S C config.flush_blocks clock log w).0) [
        | inl (_, e) ↦
            rw (e, follow)
              (λ h.
                let (signalled, rest) = follow-DeliversAndCloses items w' h in
                (
                  signalled,
                  prepend (log ∷ []) (logs_before_signal items) w.storage w'.storage
                      (follow S C contracts config items w').1.storage
                      (handle_log-Delivers clock log w e) rest,
                ))
        | inr (_, e) ↦ rw (e, follow) (λ h. cc)
      ]
  follow-DeliversAndCloses (ctrl_c signal ∷ items) w = λ h. (
    refl,
    record {
      before = w.storage;
      delivered = Delivers-nil w.storage;
      closed = shut_down-closes signal w (cc);
    },
  )
