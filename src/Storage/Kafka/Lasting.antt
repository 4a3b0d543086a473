-- ===== src/Storage/Kafka/Lasting.antt =====
-- The schemas of the Kafka sink over a run of writes, whether or not these return.
use polymarket_indexer.Prelude.{
  String, ◌<>◌, ◌≡◌, ◌≢◌, ap, sym, ◌∙◌, refl, some, List, [], ◌∷◌, map, arith, eq_iff, Option-cases,
  inl, inr,
}
use polymarket_indexer.Prelude.Dict.{lookup, lookup-insert}
use polymarket_indexer.Prelude.Outcome.{ok, err, Result-cases}
use polymarket_indexer.Storage.Avro.{Broker}
use polymarket_indexer.Storage.Calls.{SinkEvent}
use polymarket_indexer.Storage.Kafka.{
  Client, expected_schema_names, schema_json, get_or_create_schema, fill_record, build_record,
  encode, send_message, write_event,
}
use polymarket_indexer.Storage.Kafka.Schemas.{
  SchemaLaws, get_or_create_schema-eq-ok, get_or_create_schema-known,
  expected_schema_names-injective,
}

module _ (B : Broker) where
  -- The object after writes, made one after another.
  abbrev pub after_writes : List SinkEvent → Client B → Client B
  after_writes [] m = m
  after_writes (e ∷ es) m =
      after_writes es
        (write_event B e.event_type e.block_number e.tx_hash e.log_index e.columns m).1

  lookup-get_or_create_schema :
      (k j : String) (columns : List String) (m : Client B) (schema : B.AvroSchema)
      → lookup k m.storage.schemas ≡ some schema
      → lookup k (get_or_create_schema B j columns m).1.storage.schemas ≡ some schema
  unfolding get_or_create_schema
  lookup-get_or_create_schema k j columns m schema h =
      elim (Option-cases (lookup j m.storage.schemas)) [
        | inr (old, e) ↦ ground arith
        | inl e ↦ elim (Result-cases (B.parse_schema (schema_json j columns))) [
          | inr (_, p) ↦ ground arith
          | inl (made, p) ↦ ground (arith, lookup-insert j k made m.storage.schemas, eq_iff j k)
        ]
      ]

  schemas-write_event :
      (e : SinkEvent) (m : Client B)
      → (write_event B e.event_type e.block_number e.tx_hash e.log_index e.columns
          m).1.storage.schemas
        ≡ (get_or_create_schema B e.event_type
            (map (λ (name, _). name) e.columns)
            m).1.storage.schemas
  unfolding write_event build_record send_message
  schemas-write_event e m =
      let columns = map (λ ((name, _) : String × String). name) e.columns in
      elim (Result-cases (get_or_create_schema B e.event_type columns m).0) [
        | inr (_, g) ↦ rw (g, write_event) refl
        | inl (schema, g) ↦ elim (Option-cases (B.new_record schema)) [
          | inl n ↦ rw (g, n, write_event, build_record) refl
          | inr (empty, n) ↦
              let row =
                fill_record B e.event_type e.block_number e.tx_hash e.log_index e.columns empty in
              elim (Result-cases (encode B schema row)) [
                | inr (_, f) ↦ rw (g, n, f, write_event, build_record) refl
                | inl (payload, f) ↦ rw (g, n, f, write_event, build_record) refl
              ]
        ]
      ]

  lookup-after_writes :
      (k : String) (es : List SinkEvent) (m : Client B) (schema : B.AvroSchema)
      → lookup k m.storage.schemas ≡ some schema
      → lookup k (after_writes es m).storage.schemas ≡ some schema
  lookup-after_writes k [] m schema h = h
  lookup-after_writes k (e ∷ es) m schema h =
      let columns = map (λ ((name, _) : String × String). name) e.columns in
      let kept = lookup-get_or_create_schema k e.event_type columns m schema h in
      lookup-after_writes k es _ schema (ap (lookup k) (schemas-write_event e m) ∙ kept)

module _ (B : Broker) (L : SchemaLaws B) (event_type : String) (columns later : List String) where
  -- Once a call for an event type has returned a schema, then after any writes, of events of this and
  -- of other types, whether or not they return, a call for the type gives that schema if it has the
  -- same columns in the same order, and otherwise the error of a mismatch; nothing is changed.
  pub get_or_create_schema-fixes :
      (m : Client B) (schema : B.AvroSchema) (es : List SinkEvent)
      → (get_or_create_schema B event_type columns m).0 ≡ ok schema
      → let m' = after_writes B es (get_or_create_schema B event_type columns m).1 in
        (later ≡ columns → get_or_create_schema B event_type later m' ≡ (ok schema, m'))
        × (later ≢ columns
            → get_or_create_schema B event_type later m'
              ≡ (err ("schema mismatch for event type '" <> event_type <> "'"), m'))
  get_or_create_schema-fixes m schema es h =
      let made = (get_or_create_schema B event_type columns m).1 in
      let (names, _, _, kept) = get_or_create_schema-eq-ok B L event_type columns m schema h in
      let (accepted, refused) =
        get_or_create_schema-known B L event_type later (after_writes B es made) schema
          (lookup-after_writes B event_type es made schema kept) in
      (
        λ same. accepted (ap expected_schema_names same ∙ sym names),
        λ other. refused (λ e. other (expected_schema_names-injective later columns (e ∙ names))),
      )
