-- ===== src/Storage/Kafka/Sending.antt =====
-- What a `write_event` of the Kafka sink sends.
use polymarket_indexer.Prelude.{
  ℕ, String, ◌<>◌, ◌≡◌, refl, ap, sym, ◌∙◌, some, List, [], ◌∷◌, ◌++◌, map, arith, Option-cases,
  inl, inr,
}
use polymarket_indexer.Prelude.Outcome.{Result, ok, err}
use polymarket_indexer.Prelude.Exec.{lift, bind-eq-ok}
use polymarket_indexer.Storage.Avro.{Broker}
use polymarket_indexer.Storage.Calls.{SinkEvent}
use polymarket_indexer.Storage.Kafka.{
  Client, KafkaStorage, new, expected_schema_names, schema_field_names, get_or_create_schema,
  topic_name, fill_record, build_record, encode, send_message, write_event,
}
use polymarket_indexer.Storage.Kafka.Schemas.{SchemaLaws, get_or_create_schema-eq-ok}

pub record Message (Payload : Type 0) : Type 0 where
  pub topic : String
  pub key : String
  pub payload : Payload

-- What the program relies on of the clients: `SchemaLaws`, that making a producer sends nothing, and
-- that a `send` that returns has put one message after those that the brokers have. Of a `send` that
-- fails nothing is said.
pub record BrokerLaws (B : Broker) : Type 0 where
  pub schemas : SchemaLaws B
  pub sent : B.World → List (Message B.Payload)
  pub sent-create_producer :
      (settings : List (String × String)) (w : B.World)
      → sent (B.create_producer settings w).1 ≡ sent w
  pub sent-send :
      (producer : B.Producer) (topic : String) (payload : B.Payload) (key : String) (seconds : ℕ)
      → (w : B.World) → (B.send producer topic payload key seconds w).0 ≡ ok tt
      → sent (B.send producer topic payload key seconds w).1
        ≡ sent w ++ record { topic = topic; key = key; payload = payload } ∷ []

module _ (B : Broker) (L : BrokerLaws B) where
  -- The prefix of a client that was made.
  abbrev topic_prefix_of : String → Result (KafkaStorage B) → String
  topic_prefix_of default (ok storage) = storage.topic_prefix
  topic_prefix_of default (err _) = default

  -- The message of an event: its topic is that of the event type, its key is the hash of the
  -- transaction, and its payload is the encoding of the row, under a schema with the row's fields.
  pub record Carries (prefix : String) (e : SinkEvent) (msg : Message B.Payload) : Type 0 where
    pub topic : msg.topic ≡ prefix <> "." <> e.event_type
    pub key : msg.key ≡ e.tx_hash
    pub schema : B.AvroSchema
    pub names :
        schema_field_names B schema ≡ expected_schema_names (map (λ (name, _). name) e.columns)
    pub empty : B.Record
    pub new_record : B.new_record schema ≡ some empty
    pub payload :
        encode B schema
          (fill_record B e.event_type e.block_number e.tx_hash e.log_index e.columns empty)
        ≡ ok msg.payload

  -- A new client has the prefix that was given, and has sent nothing.
  pub new-eq-ok :
      (brokers prefix : String) (w : B.World) (storage : KafkaStorage B)
      → (new B brokers prefix w).0 ≡ ok storage
      → (storage.topic_prefix ≡ prefix) × (L.sent (new B brokers prefix w).1 ≡ L.sent w)
  unfolding new
  new-eq-ok brokers prefix w storage h =
      let settings = ("bootstrap.servers", brokers) ∷ ("message.timeout.ms", "5000") ∷ [] in
      let (producer, _, made, same) = bind-eq-ok (B.create_producer settings) _ w h in
      (ap (topic_prefix_of prefix) (sym made), ap L.sent same ∙ L.sent-create_producer settings w)

  build_record-eq-ok :
      (event_type : String) (schema : B.AvroSchema) (r : B.Record)
      → build_record B event_type schema ≡ ok r
      → B.new_record schema ≡ some r
  unfolding build_record
  build_record-eq-ok event_type schema r h = elim (Option-cases (B.new_record schema)) [
    | inl e ↦ ground arith
    | inr (_, e) ↦ ground arith
  ]

  send_message-sends :
      (event_type tx_hash : String) (payload : B.Payload) (m : Client B)
      → (send_message B event_type tx_hash payload m).0 ≡ ok tt
      → L.sent (send_message B event_type tx_hash payload m).1.world
        ≡ L.sent m.world
          ++ record { topic = topic_name B m.storage event_type; key = tx_hash; payload = payload }
            ∷ []
  unfolding send_message
  send_message-sends event_type tx_hash payload m h =
      L.sent-send m.storage.producer (topic_name B m.storage event_type) payload tx_hash 0 m.world h

  send_message-storage :
      (event_type tx_hash : String) (payload : B.Payload) (m : Client B)
      → (send_message B event_type tx_hash payload m).1.storage ≡ m.storage
  unfolding send_message
  send_message-storage event_type tx_hash payload m = refl

  -- A write that returns has sent one message, that of its event, after those that were sent before.
  pub write_event-sends :
      (e : SinkEvent) (m : Client B)
      → let n = write_event B e.event_type e.block_number e.tx_hash e.log_index e.columns m in
        n.0 ≡ ok tt
        → (msg : Message B.Payload) × Carries m.storage.topic_prefix e msg
          × (L.sent n.1.world ≡ L.sent m.world ++ msg ∷ [])
          × (n.1.storage.topic_prefix ≡ m.storage.topic_prefix)
  unfolding write_event topic_name
  write_event-sends e m h =
      let columns = map (λ (name, _). name) e.columns in
      let (schema, got, h1, same1) =
        bind-eq-ok (get_or_create_schema B e.event_type columns) _ m h in
      let m1 = (get_or_create_schema B e.event_type columns m).1 in
      let (empty, built, h2, same2) =
        bind-eq-ok (lift (build_record B e.event_type schema)) _ m1 h1 in
      let row = fill_record B e.event_type e.block_number e.tx_hash e.log_index e.columns empty in
      let (payload, encoded, h3, same3) = bind-eq-ok (lift (encode B schema row)) _ m1 h2 in
      let (names, world, prefix, _) =
        get_or_create_schema-eq-ok B L.schemas e.event_type columns m schema got in
      let same = same1 ∙ same2 ∙ same3 in
      let msg : Message B.Payload = record {
        topic = topic_name B m1.storage e.event_type;
        key = e.tx_hash;
        payload = payload;
      } in
      (
        msg,
        record {
          topic = ap (λ p. p <> "." <> e.event_type) prefix;
          key = refl;
          schema = schema;
          names = names;
          empty = empty;
          new_record = build_record-eq-ok e.event_type schema empty built;
          payload = encoded;
        },
        ap (λ (x : Client B). L.sent x.world) same
            ∙ send_message-sends e.event_type e.tx_hash payload m1 h3
            ∙ ap (λ w. L.sent w ++ msg ∷ []) world,
        ap (λ (x : Client B). x.storage.topic_prefix) same
            ∙ ap (λ (x : KafkaStorage B). x.topic_prefix)
                (send_message-storage e.event_type e.tx_hash payload m1)
            ∙ prefix,
      )
