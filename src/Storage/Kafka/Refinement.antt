-- ===== src/Storage/Kafka/Refinement.antt =====
-- A run of calls on the Kafka sink, against its abstract view: the list of messages, to which each
-- event adds its own.
use mathlib.Core.List.{append_assoc, append-nil}
use mathlib.Core.Path.{subst}
use polymarket_indexer.Prelude.{String, ◌≡◌, ap, sym, ◌∙◌, List, [], ◌∷◌, ◌++◌}
use polymarket_indexer.Storage.Avro.{Broker}
use polymarket_indexer.Storage.Calls.{
  SinkEvent, Call, write, rotate, close, events_of, call, run_calls, Reaches, Reaches-uncons,
}
use polymarket_indexer.Storage.Kafka.{Client, kafka_sink}
use polymarket_indexer.Storage.Kafka.Sending.{Message, BrokerLaws, Carries, write_event-sends}

module _ (B : Broker) (L : BrokerLaws B) where
  -- One message for each event, in order.
  abbrev pub CarriesAll : String → List SinkEvent → List (Message B.Payload) → Type 0
  CarriesAll prefix [] [] = Unit
  CarriesAll prefix (e ∷ es) (msg ∷ msgs) = Carries B L prefix e msg × CarriesAll prefix es msgs
  CarriesAll prefix _ _ = ⊥

  -- After a run of calls that all returned, the brokers have the messages that they had before, and
  -- then one message for each event that was written, in the order of the writes.
  pub sent-run_calls :
      (calls : List Call) (m n : Client B)
      → Reaches (kafka_sink B) calls m n
      → (msgs : List (Message B.Payload)) × CarriesAll m.storage.topic_prefix (events_of calls) msgs
        × (L.sent n.world ≡ L.sent m.world ++ msgs)
  unfolding events_of run_calls call
  sent-run_calls [] m n r =
      ([], tt, ap (λ x. L.sent x.1.world) (sym r) ∙ sym (append-nil (L.sent m.world)))
  sent-run_calls (write e ∷ calls) m n r =
      let (t, first, rest) = Reaches-uncons (kafka_sink B) (write e) calls m n r in
      let (msgs, carried, sent) = sent-run_calls calls t n rest in
      let (msg, carries, added, prefix) = write_event-sends B L e m (ap (λ x. x.0) first) in
      let there = ap (λ x. x.1) first in
      let same_prefix : t.storage.topic_prefix ≡ m.storage.topic_prefix =
        ap (λ (x : Client B). x.storage.topic_prefix) (sym there) ∙ prefix in
      (
        msg ∷ msgs,
        (carries, subst (λ p. CarriesAll p (events_of calls) msgs) same_prefix carried),
        sent
            ∙ ap (λ (x : Client B). L.sent x.world ++ msgs) (sym there)
            ∙ ap (λ l. l ++ msgs) added
            ∙ append_assoc (L.sent m.world) (msg ∷ []) msgs,
      )
  sent-run_calls (rotate ∷ calls) m n r =
      let (t, first, rest) = Reaches-uncons (kafka_sink B) rotate calls m n r in
      rw (ap (λ x. x.1) first) (sent-run_calls calls t n rest)
  sent-run_calls (close ∷ calls) m n r =
      let (t, first, rest) = Reaches-uncons (kafka_sink B) close calls m n r in
      rw (ap (λ x. x.1) first) (sent-run_calls calls t n rest)
