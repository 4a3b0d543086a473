-- ===== src/Storage/Kafka.antt =====
-- `KafkaStorage` of src/storage.rs: one Avro record for each event, in a message of its own.
pub mod Records
pub mod Schemas
pub mod Lasting
pub mod Success
pub mod Sending
pub mod Refinement
use polymarket_indexer.Prelude.{
  ℕ, String, ◌<>◌, Option, none, some, List, [], ◌∷◌, ◌++◌, map, not, strings_eq, if◌then◌else◌,
}
use polymarket_indexer.Prelude.Dict.{Dict, lookup, insert}
use polymarket_indexer.Prelude.Outcome.{Result, ok, err}
use polymarket_indexer.Prelude.Exec.{Exec, pure, lift, ◌>>=◌, ◌>>◌}
use polymarket_indexer.Storage.Sink.{EventSink}
use polymarket_indexer.Storage.Avro.{AvroValue, string, long, as_i64, FieldJson, SchemaJson, Broker}

pub record KafkaStorage (B : Broker) : Type 0 where
  pub producer : B.Producer
  pub topic_prefix : String
  pub schemas : Dict B.AvroSchema

-- The object, and the world in which its methods run.
pub record Client (B : Broker) : Type 0 where
  pub storage : KafkaStorage B
  pub world : B.World

unfoldable pub expected_schema_names : List String → List String
expected_schema_names columns =
    ("event_type" ∷ "block_number" ∷ "transaction_hash" ∷ "log_index" ∷ []) ++ columns

abbrev pub field_json : String → String → FieldJson
field_json name type_name = record { name = name; type_name = type_name }

-- The JSON of the schema that is made for columns of these names.
unfoldable pub schema_json : String → List String → SchemaJson
schema_json event_type columns = record {
  type_name = "record";
  name = event_type;
  fields =
      (field_json "event_type" "string"
        ∷ field_json "block_number" "long"
        ∷ field_json "transaction_hash" "string"
        ∷ field_json "log_index" "long"
        ∷ [])
      ++ map (λ name. field_json name "string") columns;
}

module _ (B : Broker) where
  open B use {AvroSchema, Record, Producer, Payload, World}

  -- `KafkaStorage::new`
  unfoldable pub new : String → String → Exec World (KafkaStorage B)
  new brokers topic_prefix = do
    producer ←
        B.create_producer (("bootstrap.servers", brokers) ∷ ("message.timeout.ms", "5000") ∷ [])
    pure (record { producer = producer; topic_prefix = topic_prefix; schemas = [] })

  unfoldable pub schema_field_names : AvroSchema → List String
  schema_field_names schema = elim (B.record_fields schema) [ some names ↦ names | none ↦ [] ]

  unfoldable pub get_or_create_schema : String → List String → Exec (Client B) AvroSchema
  get_or_create_schema event_type columns m = elim (lookup event_type m.storage.schemas) [
    | some schema ↦
        if not (strings_eq (expected_schema_names columns) (schema_field_names schema))
        then (err ("schema mismatch for event type '" <> event_type <> "'"), m)
        else (ok schema, m)
    | none ↦ elim (B.parse_schema (schema_json event_type columns)) [
      | err e ↦ (err e, m)
      | ok schema ↦
          let schemas = insert event_type schema m.storage.schemas in
          (ok schema, record m { storage = record (m.storage) { schemas = schemas } })
    ]
  ]

  unfoldable pub topic_name : KafkaStorage B → String → String
  topic_name storage event_type = storage.topic_prefix <> "." <> event_type

  unfoldable pub put_columns : List (String × String) → Record → Record
  put_columns [] r = r
  put_columns ((name, value) ∷ columns) r = put_columns columns (B.put name (string value) r)

  -- The fields of the row, put one after another.
  unfoldable pub fill_record : String → ℕ → String → ℕ → List (String × String) → Record → Record
  unfolding put_columns as_i64
  fill_record event_type block_number tx_hash log_index columns r =
      let r1 = B.put "event_type" (string event_type) r in
      let r2 = B.put "block_number" (long (as_i64 block_number)) r1 in
      let r3 = B.put "transaction_hash" (string tx_hash) r2 in
      let r4 = B.put "log_index" (long (as_i64 log_index)) r3 in put_columns columns r4

  unfoldable pub build_record : String → AvroSchema → Result Record
  build_record event_type schema = elim (B.new_record schema) [
    | none ↦ err ("failed to build avro record for event type '" <> event_type <> "'")
    | some r ↦ ok r
  ]

  -- The writer's `append` and `into_inner`.
  unfoldable pub encode : AvroSchema → Record → Result Payload
  encode schema r = elim (B.append r (B.new_writer schema)) [
    | err e ↦ err e
    | ok writer ↦ B.into_inner writer
  ]

  unfoldable pub send_message : String → String → Payload → Exec (Client B) (Unit {0})
  send_message event_type tx_hash payload m =
      let topic = topic_name m.storage event_type in
      let (r, w) = B.send m.storage.producer topic payload tx_hash 0 m.world in
      (r, record m { world = w })

  unfoldable pub write_event :
      String → ℕ → String → ℕ → List (String × String) → Exec (Client B) (Unit {0})
  write_event event_type block_number tx_hash log_index columns = do
    schema ← get_or_create_schema event_type (map (λ (name, _). name) columns)
    empty ← lift (build_record event_type schema)
    let row = fill_record event_type block_number tx_hash log_index columns empty
    payload ← lift (encode schema row)
    send_message event_type tx_hash payload

  -- `impl EventSink for KafkaStorage`
  abbrev pub kafka_sink : EventSink
  kafka_sink = record {
    State = Client B;
    write_event = write_event;
    rotate = pure tt;
    close = pure tt;
  }
