-- ===== src/Metrics/Updater/History.antt =====
-- The rates over any history of observations and ticks.
use polymarket_indexer.Prelude.{ℕ, ◌≤◌, List, [], ◌∷◌, arith, Bool-cases, inl, inr}
use polymarket_indexer.Metrics.{registered}
use polymarket_indexer.Metrics.Rates.{
  IsAccurate, registered-IsAccurate, observe_log-IsAccurate, observe_decoded_type-IsAccurate,
  rate_tick-IsAccurate,
}
use polymarket_indexer.Metrics.Updater.{
  Updater, Update, log_seen, type_seen, ticked, shut_down, spawn_rate_updater, update, run_updates,
}

-- The instant of the last observation.
unfoldable pub after_update : ℕ → Update → ℕ
after_update last (log_seen block_number unix now later) = now
after_update last (type_seen event_type now later) = now
after_update last (ticked now) = last
after_update last shut_down = last

unfoldable pub after_updates : ℕ → List Update → ℕ
after_updates last [] = last
after_updates last (x ∷ xs) = after_updates (after_update last x) xs

-- The observations are in order of time. Nothing is asked of the ticks.
abbrev pub InOrder : ℕ → List Update → Type 0
InOrder last [] = Unit
InOrder last (x ∷ xs) = last ≤ after_update last x × InOrder (after_update last x) xs

update-IsAccurate :
    (last : ℕ) (x : Update) (u : Updater)
    → IsAccurate last u.shared
    → last ≤ after_update last x
    → IsAccurate (after_update last x) (update x u).shared
unfolding update after_update
update-IsAccurate last (log_seen block_number unix now later) u a h =
    observe_log-IsAccurate last now later u.shared a h block_number unix
update-IsAccurate last (type_seen event_type now later) u a h =
    observe_decoded_type-IsAccurate last now later u.shared a h event_type
update-IsAccurate last (ticked now) u a h = elim (Bool-cases u.is_running) [
  | inl e ↦ rw (e, update) (rate_tick-IsAccurate last last now u.shared a (omega arith))
  | inr e ↦ rw (e, update) a
]
update-IsAccurate last shut_down u a h = a

run_updates-keeps_IsAccurate :
    (last : ℕ) (xs : List Update) (u : Updater)
    → IsAccurate last u.shared
    → InOrder last xs
    → IsAccurate (after_updates last xs) (run_updates xs u).shared
unfolding run_updates after_updates after_update
run_updates-keeps_IsAccurate last [] u a h = a
run_updates-keeps_IsAccurate last (x ∷ xs) u a h =
    run_updates-keeps_IsAccurate (after_update last x) xs (update x u)
      (update-IsAccurate last x u a h.0) h.1

-- Whatever is observed, in order of time, and wherever the ticks and the shutdown of the task fall
-- between: the queues are in order of time, and the gauges are the lengths of the queues.
pub run_updates-IsAccurate :
    (xs : List Update)
    → InOrder 0 xs
    → IsAccurate (after_updates 0 xs) (run_updates xs (spawn_rate_updater registered)).shared
unfolding spawn_rate_updater
run_updates-IsAccurate xs h =
    run_updates-keeps_IsAccurate 0 xs (spawn_rate_updater registered) (registered-IsAccurate 0) h
