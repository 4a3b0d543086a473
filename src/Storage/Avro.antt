-- ===== src/Storage/Avro.antt =====
-- What the Kafka sink uses of `apache_avro`, `serde_json` and `rdkafka`.
use polymarket_indexer.Prelude.{ℕ, ◌-◌, String, Option, List, ltb, u64_mod, if◌then◌else◌}
use polymarket_indexer.Prelude.Outcome.{Result}
use polymarket_indexer.Prelude.Exec.{Exec}

-- The values of an `i64` are between -2^63 and 2^63 - 1; `negsuc n` is -(n + 1).
pub data ℤ : Type 0 where
  pos negsuc : ℕ → ℤ

-- 2^63.
abbrev pub i64_bound : ℕ
i64_bound = 9223372036854775808

-- `n as i64` of a `u64`.
unfoldable pub as_i64 : ℕ → ℤ
as_i64 n = if ltb n i64_bound then pos n else negsuc (u64_mod - 1 - n)

-- The values that the sink puts into a record: `string` and `long` of Avro.
pub data AvroValue : Type 0 where
  string : String → AvroValue
  long : ℤ → AvroValue

-- The JSON that the sink writes a schema as: `{"name": ..., "type": ...}`, and
-- `{"type": ..., "name": ..., "fields": [...]}`.
pub record FieldJson : Type 0 where
  pub name : String
  pub type_name : String

pub record SchemaJson : Type 0 where
  pub type_name : String
  pub name : String
  pub fields : List FieldJson

-- The Avro and Kafka clients. `World` is the brokers and the network.
pub record Broker : Type 1 where
  pub World : Type 0
  pub Producer : Type 0
  pub AvroSchema : Type 0
  pub Record : Type 0
  pub AvroWriter : Type 0
  pub Payload : Type 0
  -- `ClientConfig::new()`, `set` for each setting, and `create`.
  pub create_producer : List (String × String) → Exec World Producer
  -- `AvroSchema::parse_str` of the text of the JSON.
  pub parse_schema : SchemaJson → Result AvroSchema
  -- The names of the fields of an `AvroSchema::Record`, and nothing of another schema.
  pub record_fields : AvroSchema → Option (List String)
  pub new_record : AvroSchema → Option Record
  pub put : String → AvroValue → Record → Record
  -- `AvroWriter::new(&schema, Vec::new())`
  pub new_writer : AvroSchema → AvroWriter
  pub append : Record → AvroWriter → Result AvroWriter
  pub into_inner : AvroWriter → Result Payload
  -- `send` of a record with a topic, a payload and a key, with a timeout in seconds.
  pub send : Producer → String → Payload → String → ℕ → Exec World (Unit {0})
