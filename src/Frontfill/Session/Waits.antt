-- ===== src/Frontfill/Session/Waits.antt =====
-- The waits between the attempts of a live run that goes on.
use mathlib.Core.List.{append_assoc, append-nil}
use polymarket_indexer.Prelude.{
  ℕ, suc, ◌^◌, ◌<◌, ◌≡◌, refl, ap, sym, ◌∙◌, min, none, some, List, [], ◌∷◌, ◌++◌, arith,
  Option-cases, inl, inr, u32_mod,
}
use polymarket_indexer.Prelude.Outcome.{Result, ok, err, Result-cases}
use polymarket_indexer.Storage.Sink.{EventSink}
use polymarket_indexer.Contracts.{Address}
use polymarket_indexer.Decode.{Codec}
use polymarket_indexer.Frontfill.Auth.{Filter, build_filter}
use polymarket_indexer.Frontfill.Backoff.{reconnect_delay, back_off}
use polymarket_indexer.Frontfill.Live.{Live}
use polymarket_indexer.Frontfill.Session.{
  Attempt, refused, unsubscribed, subscribed, Config, Session, Returned, set_connected, wait,
  follow, after_stream, connect, subscribe, attempt_once, run_attempts,
}

-- The wait after `k` failures in a row: 1, 2, 4, 8, 16, and from then on 32 seconds.
unfoldable pub delay : ℕ → ℕ
delay k = 2 ^ min k 5

-- The failures in a row after an attempt: a stream that was opened starts the count again, and its end
-- counts as the first.
abbrev pub failures_before : ℕ → Attempt → ℕ
failures_before k (subscribed items) = 0
failures_before k _ = k

unfoldable pub waits_from : ℕ → List Attempt → List ℕ
unfolding delay
waits_from k [] = []
waits_from k (a ∷ rest) = delay (failures_before k a) ∷ waits_from (suc (failures_before k a)) rest

module _ (S : EventSink) (C : Codec) (contracts : Result (List Address)) (config : Config) where
  -- The counter stands for `k` failures; it stops counting where that makes no difference.
  abbrev Counts : ℕ → Session S.State → Type 0
  Counts k s = (min s.reconnect_attempt 5 ≡ min k 5) × (s.reconnect_attempt < u32_mod)

  -- A turn that goes on waits once, as `k` failures before it ask for.
  abbrev Waited : ℕ → Session S.State → Session S.State → Type 0
  Waited k s t = (t.waits ≡ s.waits ++ delay k ∷ []) × Counts (suc k) t

  wait-Waited : (k : ℕ) (s : Session S.State) → Counts k s → Waited k s (wait s)
  unfolding back_off reconnect_delay delay
  wait-Waited k s (same, small) = (ap (λ n. s.waits ++ 2 ^ n ∷ []) same, (omega arith, omega arith))

  after_stream-Waited :
      (p : Returned × Live S.State) (s : Session S.State)
      → s.reconnect_attempt ≡ 0
      → (after_stream S C contracts config p s).0 ≡ none
      → Waited 0 s (after_stream S C contracts config p s).1
  unfolding after_stream
  after_stream-Waited (none, w) s e h =
      wait-Waited 0 (record s { live = set_connected 0 w }) (omega arith, omega arith)
  after_stream-Waited (some r, w) s e h = cc

  subscribe-Waited :
      (a : Attempt) (filter : Result Filter) (k : ℕ) (s : Session S.State)
      → Counts k s
      → (subscribe S C contracts config a filter s).0 ≡ none
      → Waited (failures_before k a) s (subscribe S C contracts config a filter s).1
  unfolding subscribe
  subscribe-Waited refused f k s c h = wait-Waited k s c
  subscribe-Waited unsubscribed (ok _) k s c h = wait-Waited k s c
  subscribe-Waited unsubscribed (err e) k s c h = cc
  subscribe-Waited (subscribed items) (err e) k s c h = cc
  subscribe-Waited (subscribed items) (ok _) k s c h =
      after_stream-Waited (follow S C contracts config items (set_connected 1 s.live))
        (record s { reconnect_attempt = 0 }) refl h

  attempt_once-Waited :
      (a : Attempt) (k : ℕ) (s : Session S.State)
      → Counts k s
      → (attempt_once S C contracts config a s).0 ≡ none
      → Waited (failures_before k a) s (attempt_once S C contracts config a s).1
  unfolding attempt_once
  attempt_once-Waited a k s c = elim (Result-cases (connect S C contracts config)) [
    | inl (_, e) ↦
        rw (e, attempt_once) (subscribe-Waited a (build_filter contracts config.start_block) k s c)
    | inr (_, e) ↦ rw (e, attempt_once) (λ h. cc)
  ]

  run_attempts-waits :
      (attempts : List Attempt) (k : ℕ) (s : Session S.State)
      → Counts k s
      → (run_attempts S C contracts config attempts s).0 ≡ none
      → (run_attempts S C contracts config attempts s).1.waits ≡ s.waits ++ waits_from k attempts
  unfolding run_attempts waits_from
  run_attempts-waits [] k s c = λ h. sym (append-nil s.waits)
  run_attempts-waits (a ∷ rest) k s c =
      let t = (attempt_once S C contracts config a s).1 in
      let j = failures_before k a in
      elim (Option-cases (attempt_once S C contracts config a s).0) [
        | inr (r, e) ↦ rw (e, run_attempts) (λ h. cc)
        | inl e ↦
            let (waited, counts) = attempt_once-Waited a k s c e in
            rw (e, run_attempts)
              (λ h.
                run_attempts-waits rest (suc j) t counts h
                ∙ ap (λ l. l ++ waits_from (suc j) rest) waited
                ∙ append_assoc s.waits (delay j ∷ []) (waits_from (suc j) rest))
      ]

  -- From a counter of 0, a run that goes on has waited once after each attempt: 1, 2, 4, 8, 16 and then
  -- always 32 seconds, for as long as no stream is opened; the end of a stream that was opened starts
  -- again at 1.
  pub waits-run_attempts :
      (attempts : List Attempt) (s : Session S.State)
      → s.reconnect_attempt ≡ 0
      → (run_attempts S C contracts config attempts s).0 ≡ none
      → (run_attempts S C contracts config attempts s).1.waits ≡ s.waits ++ waits_from 0 attempts
  waits-run_attempts attempts s e = run_attempts-waits attempts 0 s (omega arith, omega arith)
