-- ===== src/Frontfill/Session/Delivery/Signals.antt =====
-- A signal ends a live run.
use polymarket_indexer.Prelude.{
  ◌≡◌, refl, Bool, true, false, ◌||◌, ◌==◌, none, some, List, [], ◌∷◌, Option-cases, Bool-cases,
  inl, inr,
}
use polymarket_indexer.Prelude.Outcome.{Result, err}
use polymarket_indexer.Storage.Sink.{EventSink}
use polymarket_indexer.Contracts.{Address}
use polymarket_indexer.Decode.{Codec}
use polymarket_indexer.Frontfill.Session.{Attempt, Config, Session, attempt_once, run_attempts, run}
use polymarket_indexer.Frontfill.Session.Events.{signals}
use polymarket_indexer.Frontfill.Session.Delivery.Runs.{attempt_once-Turn}

-- Some stream has a signal.
unfoldable pub any_signals : List Attempt → Bool
any_signals [] = false
any_signals (a ∷ rest) = signals a || any_signals rest

module _ (S : EventSink) (C : Codec) (contracts : Result (List Address)) (config : Config) where
  run_attempts-none :
      (attempts : List Attempt) (s : Session S.State)
      → (run_attempts S C contracts config attempts s).0 ≡ none
      → any_signals attempts ≡ false
  unfolding run_attempts any_signals
  run_attempts-none [] s = λ h. refl
  run_attempts-none (a ∷ rest) s =
      let t = (attempt_once S C contracts config a s).1 in
      let (goes_on, _) = attempt_once-Turn S C contracts config a s in
      elim (Option-cases (attempt_once S C contracts config a s).0) [
        | inr (r, e) ↦ rw (e, run_attempts) (λ h. cc)
        | inl e ↦ rw (e, run_attempts, (goes_on e).0) (λ h. run_attempts-none rest t h)
      ]

  -- Once a signal has come on some stream, `run` has returned, with `Ok` or with an error.
  pub run-returns :
      (attempts : List Attempt) (s : Session S.State)
      → any_signals attempts ≡ true
      → (r : Result (Unit {0})) × ((run S C contracts config attempts s).0 ≡ some r)
  unfolding run
  run-returns attempts s signalled = elim (Bool-cases (config.flush_blocks == 0)) [
    | inl e ↦ rw e (err "flush-blocks must be greater than 0", refl)
    | inr e ↦ rw e (elim (Option-cases (run_attempts S C contracts config attempts s).0) [
      | inl still ↦
          let quiet = run_attempts-none attempts s still in let absurd : ⊥ = cc in elim absurd [ ]
      | inr (r, returned) ↦ (r, returned)
    ])
  ]
