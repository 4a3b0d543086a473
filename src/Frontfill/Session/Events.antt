-- ===== src/Frontfill/Session/Events.antt =====
-- The logs and the events that the streams of a live run bring, up to the signal.
use mathlib.Core.List.{append_assoc}
use polymarket_indexer.Prelude.{
  ◌≡◌, refl, ap, sym, ◌∙◌, Bool, true, false, List, [], ◌∷◌, ◌++◌, if◌then◌else◌,
}
use polymarket_indexer.Storage.Calls.{SinkEvent}
use polymarket_indexer.Frontfill.Live.Delivery.{log_events}
use polymarket_indexer.Decode.{Log, Codec}
use polymarket_indexer.Frontfill.Session.{Item, arrived, ctrl_c, Attempt, subscribed}

-- The logs of the items before the signal.
unfoldable pub logs_before_signal : List Item → List Log
logs_before_signal [] = []
logs_before_signal (arrived clock log ∷ items) = log ∷ logs_before_signal items
logs_before_signal (ctrl_c signal ∷ items) = []

unfoldable pub has_signal : List Item → Bool
has_signal [] = false
has_signal (arrived clock log ∷ items) = has_signal items
has_signal (ctrl_c signal ∷ items) = true

unfoldable pub logs_of_attempt : Attempt → List Log
unfolding logs_before_signal
logs_of_attempt (subscribed items) = logs_before_signal items
logs_of_attempt _ = []

unfoldable pub signals : Attempt → Bool
unfolding has_signal
signals (subscribed items) = has_signal items
signals _ = false

-- The logs of all streams, up to the signal.
unfoldable pub logs_of : List Attempt → List Log
logs_of [] = []
logs_of (a ∷ rest) =
    let later = logs_of rest in logs_of_attempt a ++ (if signals a then [] else later)

module _ (C : Codec) where
  unfoldable pub all_events : List Log → List SinkEvent
  all_events [] = []
  all_events (log ∷ logs) = log_events C log ++ all_events logs

  pub all_events-append :
      (first second : List Log)
      → all_events (first ++ second) ≡ all_events first ++ all_events second
  unfolding all_events
  all_events-append [] second = refl
  all_events-append (log ∷ first) second =
      ap (λ l. log_events C log ++ l) (all_events-append first second)
      ∙ sym (append_assoc (log_events C log) (all_events first) (all_events second))
