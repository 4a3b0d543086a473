-- ===== src/Storage/Responsive.antt =====
-- Avro and Kafka clients that work: schemas that are well formed are read, records that fit theirs are
-- encoded, and the calls on the brokers return.
use polymarket_indexer.Prelude.{
  ℕ, String, ◌≡◌, Bool, true, false, not, ◌&&◌, some, List, [], ◌∷◌, str_eq, if◌then◌else◌,
}
use polymarket_indexer.Prelude.Outcome.{ok}
use polymarket_indexer.Prelude.Identifiers.{is_name}
use polymarket_indexer.Storage.Avro.{AvroValue, string, long, FieldJson, SchemaJson, Broker}

unfoldable pub has_name : String → List FieldJson → Bool
has_name name [] = false
has_name name (f ∷ fields) = if str_eq name f.name then true else has_name name fields

-- Fields with names of Avro, no two of them the same, of the types `string` and `long`.
unfoldable pub are_fields : List FieldJson → Bool
unfolding is_name has_name
are_fields [] = true
are_fields (f ∷ fields) =
    is_name f.name
    && (if str_eq f.type_name "string" then true else str_eq f.type_name "long")
    && not (has_name f.name fields)
    && are_fields fields

-- The JSON is that of a record schema of Avro.
unfoldable pub is_record_schema : SchemaJson → Bool
unfolding is_name are_fields
is_record_schema json =
    str_eq json.type_name "record" && is_name json.name && are_fields json.fields

abbrev type_of : AvroValue → String
type_of (string _) = "string"
type_of (long _) = "long"

-- A value for each field, under its name and of its type.
abbrev pub Fills : List FieldJson → List (String × AvroValue) → Type 0
Fills [] [] = Unit
Fills (f ∷ fields) ((name, value) ∷ values) =
    (f.name ≡ name) × (f.type_name ≡ type_of value) × Fills fields values
Fills _ _ = ⊥

module _ (B : Broker) where
  -- `put` for each value in turn.
  unfoldable pub put_all : List (String × AvroValue) → B.Record → B.Record
  put_all [] r = r
  put_all ((name, value) ∷ values) r = put_all values (B.put name value r)

-- A record schema is read from its JSON, a new record of it takes a value for each field, and the
-- writer of the schema then appends the record and gives its bytes. The calls on the brokers return.
pub record IsResponsive (B : Broker) : Type 0 where
  pub create_producer-ok :
      (settings : List (String × String)) (w : B.World)
      → (producer : B.Producer) × ((B.create_producer settings w).0 ≡ ok producer)
  pub parse_schema-ok :
      (json : SchemaJson)
      → is_record_schema json ≡ true
      → (schema : B.AvroSchema) × (B.parse_schema json ≡ ok schema)
  pub new_record-some :
      (json : SchemaJson) (schema : B.AvroSchema)
      → json.type_name ≡ "record"
      → B.parse_schema json ≡ ok schema
      → (empty : B.Record) × (B.new_record schema ≡ some empty)
  pub append-ok :
      (json : SchemaJson) (schema : B.AvroSchema) (empty : B.Record)
      → (values : List (String × AvroValue)) → B.parse_schema json ≡ ok schema
      → B.new_record schema ≡ some empty
      → Fills json.fields values
      → (writer : B.AvroWriter) × (payload : B.Payload) × (B.append
            (put_all B values empty)
            (B.new_writer schema)
          ≡ ok writer)
        × (B.into_inner writer ≡ ok payload)
  pub send-ok :
      (producer : B.Producer) (topic : String) (payload : B.Payload) (key : String) (seconds : ℕ)
      → (w : B.World) → (B.send producer topic payload key seconds w).0 ≡ ok tt
