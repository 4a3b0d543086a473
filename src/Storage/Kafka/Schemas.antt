-- ===== src/Storage/Kafka/Schemas.antt =====
-- The Avro schemas of the Kafka sink: made once for each event type, and compared by field names.
use polymarket_indexer.Prelude.{
  String, ◌<>◌, ◌≡◌, ◌≢◌, refl, ap, some, List, [], ◌∷◌, map, arith, strings_eq_iff, eq_iff,
  Option-cases, inl, inr,
}
use polymarket_indexer.Prelude.Dict.{lookup, lookup-insert}
use polymarket_indexer.Prelude.Outcome.{ok, err, Result-cases}
use polymarket_indexer.Storage.Avro.{FieldJson, SchemaJson, Broker}
use polymarket_indexer.Storage.Kafka.{
  Client, expected_schema_names, schema_json, schema_field_names, get_or_create_schema, field_json,
}

-- What the program relies on of `apache_avro`: the text of a record schema is read as a record schema
-- with the fields that it lists.
pub record SchemaLaws (B : Broker) : Type 0 where
  pub record_fields-parse_schema :
      (json : SchemaJson) (schema : B.AvroSchema)
      → json.type_name ≡ "record"
      → B.parse_schema json ≡ ok schema
      → B.record_fields schema ≡ some (map (λ (f : FieldJson). f.name) json.fields)

map-field_json :
    (columns : List String)
    → map (λ (f : FieldJson). f.name) (map (λ name. field_json name "string") columns) ≡ columns
map-field_json [] = refl
map-field_json (c ∷ cs) = ap (λ l. c ∷ l) (map-field_json cs)

names-schema_json :
    (event_type : String) (columns : List String)
    → map (λ (f : FieldJson). f.name) (schema_json event_type columns).fields
      ≡ expected_schema_names columns
unfolding schema_json expected_schema_names
names-schema_json event_type columns = simp map-field_json

module _ (B : Broker) (L : SchemaLaws B) (event_type : String) (columns : List String) where
  -- A schema that is made has the names that are expected of it.
  pub schema_field_names-parse_schema :
      (schema : B.AvroSchema)
      → B.parse_schema (schema_json event_type columns) ≡ ok schema
      → schema_field_names B schema ≡ expected_schema_names columns
  unfolding schema_field_names schema_json
  schema_field_names-parse_schema schema h =
      rw
        (
          L.record_fields-parse_schema (schema_json event_type columns) schema refl h,
          schema_field_names,
        )
        (names-schema_json event_type columns)

  -- A schema that is returned fits the columns; nothing but the table of schemas has changed.
  pub get_or_create_schema-eq-ok :
      (m : Client B) (schema : B.AvroSchema)
      → (get_or_create_schema B event_type columns m).0 ≡ ok schema
      → (schema_field_names B schema ≡ expected_schema_names columns)
        × ((get_or_create_schema B event_type columns m).1.world ≡ m.world)
        × ((get_or_create_schema B event_type columns m).1.storage.topic_prefix
            ≡ m.storage.topic_prefix)
        × (lookup event_type (get_or_create_schema B event_type columns m).1.storage.schemas
            ≡ some schema)
  unfolding get_or_create_schema
  get_or_create_schema-eq-ok m schema h =
      elim (Option-cases (lookup event_type m.storage.schemas)) [
        | inr (old, e) ↦
            ground
              (arith, strings_eq_iff (expected_schema_names columns) (schema_field_names B old))
        | inl e ↦ elim (Result-cases (B.parse_schema (schema_json event_type columns))) [
          | inl (made, p) ↦ ground (
            arith,
            schema_field_names-parse_schema made p,
            lookup-insert event_type event_type made m.storage.schemas,
            eq_iff event_type event_type,
          )
          | inr (_, p) ↦ ground arith
        ]
      ]

  -- With a schema in place, the columns are accepted exactly when they have its names, and the
  -- object is left alone either way.
  pub get_or_create_schema-known :
      (m : Client B) (schema : B.AvroSchema)
      → lookup event_type m.storage.schemas ≡ some schema
      → (expected_schema_names columns ≡ schema_field_names B schema
          → get_or_create_schema B event_type columns m ≡ (ok schema, m))
        × (expected_schema_names columns ≢ schema_field_names B schema
            → get_or_create_schema B event_type columns m
              ≡ (err ("schema mismatch for event type '" <> event_type <> "'"), m))
  unfolding get_or_create_schema
  get_or_create_schema-known m schema h = (
    λ e.
        ground
          (arith, strings_eq_iff (expected_schema_names columns) (schema_field_names B schema)),
    λ n.
        ground
          (arith, strings_eq_iff (expected_schema_names columns) (schema_field_names B schema)),
  )

pub expected_schema_names-injective :
    (xs ys : List String) → expected_schema_names xs ≡ expected_schema_names ys → xs ≡ ys
unfolding expected_schema_names
expected_schema_names-injective xs ys h = cc
