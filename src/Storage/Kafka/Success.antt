-- ===== src/Storage/Kafka/Success.antt =====
-- With clients that work, the Kafka sink takes every event of the program.
use mathlib.Core.Path.{subst}
use polymarket_indexer.Prelude.{
  String, ◌≡◌, refl, ap, sym, ◌∙◌, some, true, List, [], ◌∷◌, arith, map, eq_iff, str_eq,
  Option-cases, Bool-cases, inl, inr,
}
use polymarket_indexer.Prelude.Dict.{Dict, lookup, insert, lookup-insert}
use polymarket_indexer.Prelude.Outcome.{ok}
use polymarket_indexer.Prelude.Exec.{lift, bind-of-ok}
use polymarket_indexer.Contracts.{
  EventKind, condition_preparation, position_split, positions_merge, payout_redemption,
  order_filled, orders_matched, order_cancelled, market_prepared, question_prepared,
  positions_converted,
}
use polymarket_indexer.Decode.{event_name}
use polymarket_indexer.Decode.Columns.{schema, schema_of, schema_of-event_name}
use polymarket_indexer.Storage.Avro.{AvroValue, string, long, as_i64, Broker}
use polymarket_indexer.Prelude.Identifiers.{is_name}
use polymarket_indexer.Storage.Calls.{SinkEvent, IsProper}
use polymarket_indexer.Storage.Responsive.{
  is_record_schema, are_fields, has_name, Fills, put_all, IsResponsive,
}
use polymarket_indexer.Storage.Kafka.{
  Client, schema_json, field_json, get_or_create_schema, put_columns, fill_record, build_record,
  encode, send_message, write_event, topic_name,
}
use polymarket_indexer.Storage.Kafka.Schemas.{
  SchemaLaws, schema_field_names-parse_schema, get_or_create_schema-known,
}

-- The schema of each event type is one of Avro.
is_record_schema-schema_json :
    (k : EventKind) → is_record_schema (schema_json (event_name k) (schema k)) ≡ true
unfolding is_record_schema are_fields has_name is_name schema_json event_name schema
is_record_schema-schema_json condition_preparation = refl
is_record_schema-schema_json position_split = refl
is_record_schema-schema_json positions_merge = refl
is_record_schema-schema_json payout_redemption = refl
is_record_schema-schema_json order_filled = refl
is_record_schema-schema_json orders_matched = refl
is_record_schema-schema_json order_cancelled = refl
is_record_schema-schema_json market_prepared = refl
is_record_schema-schema_json question_prepared = refl
is_record_schema-schema_json positions_converted = refl

abbrev pub text_values : List (String × String) → List (String × AvroValue)
text_values columns = map (λ ((name, value) : String × String). (name, string value)) columns

-- The values of a row, under the names of the schema.
abbrev pub row_values : SinkEvent → List (String × AvroValue)
row_values e =
    ("event_type", string e.event_type)
    ∷ ("block_number", long (as_i64 e.block_number))
    ∷ ("transaction_hash", string e.tx_hash)
    ∷ ("log_index", long (as_i64 e.log_index))
    ∷ text_values e.columns

text_values-Fills :
    (columns : List (String × String))
    → Fills
        (map
          (λ name. field_json name "string")
          (map (λ ((name, _) : String × String). name) columns))
        (text_values columns)
text_values-Fills [] = tt
text_values-Fills ((name, value) ∷ columns) = (refl, refl, text_values-Fills columns)

row_values-Fills :
    (e : SinkEvent)
    → Fills
        (schema_json e.event_type (map (λ ((name, _) : String × String). name) e.columns)).fields
        (row_values e)
unfolding schema_json
row_values-Fills e =
    (refl, refl, (refl, refl, (refl, refl, (refl, refl, text_values-Fills e.columns))))

module _ (B : Broker) where
  put_columns-eq-put_all :
      (columns : List (String × String)) (r : B.Record)
      → put_columns B columns r ≡ put_all B (text_values columns) r
  unfolding put_columns put_all
  put_columns-eq-put_all [] r = refl
  put_columns-eq-put_all ((name, value) ∷ columns) r =
      put_columns-eq-put_all columns (B.put name (string value) r)

  pub fill_record-eq-put_all :
      (e : SinkEvent) (r : B.Record)
      → fill_record B e.event_type e.block_number e.tx_hash e.log_index e.columns r
        ≡ put_all B (row_values e) r
  unfolding fill_record put_all
  fill_record-eq-put_all e r = put_columns-eq-put_all e.columns _

  -- Each schema that was made is that of its event type.
  abbrev pub Matches : Dict B.AvroSchema → Type 0
  Matches schemas =
      (k : String) (made : B.AvroSchema)
      → lookup k schemas ≡ some made
      → B.parse_schema (schema_json k (schema_of k)) ≡ ok made

  Matches-insert :
      (k : String) (made : B.AvroSchema) (schemas : Dict B.AvroSchema)
      → B.parse_schema (schema_json k (schema_of k)) ≡ ok made
      → Matches schemas
      → Matches (insert k made schemas)
  Matches-insert k made schemas parsed h j other found = elim (Bool-cases (str_eq k j)) [
    | inl same ↦
        let names : k ≡ j = (eq_iff k j).0 same in
        let is : made ≡ other = ground (arith, lookup-insert k j made schemas) in
        subst (λ n. B.parse_schema (schema_json n (schema_of n)) ≡ ok other) names
          (parsed ∙ ap ok is)
    | inr differs ↦ h j other (ground (arith, lookup-insert k j made schemas))
  ]

module _ (B : Broker) (L : SchemaLaws B) (responsive : IsResponsive B) where
  open responsive use {parse_schema-ok, new_record-some, append-ok, send-ok}

  get_or_create_schema-Matches :
      (kind : EventKind) (m : Client B)
      → let k = event_name kind in
        Matches B m.storage.schemas
        → (made : B.AvroSchema) × (B.parse_schema (schema_json k (schema kind)) ≡ ok made)
          × ((get_or_create_schema B k (schema kind) m).0 ≡ ok made)
          × Matches B (get_or_create_schema B k (schema kind) m).1.storage.schemas
  unfolding get_or_create_schema
  get_or_create_schema-Matches kind m h =
      let k = event_name kind in
      let own = schema_of-event_name kind in
      elim (Option-cases (lookup k m.storage.schemas)) [
        | inl e ↦
            let (made, parsed) =
              parse_schema-ok (schema_json k (schema kind)) (is_record_schema-schema_json kind) in
            (
              made,
              parsed,
              rw (e, parsed, get_or_create_schema) refl,
              rw (e, parsed, get_or_create_schema)
                  (Matches-insert B k made m.storage.schemas (rw own parsed) h),
            )
        | inr (made, e) ↦
            let parsed : B.parse_schema (schema_json k (schema kind)) ≡ ok made =
              rw (← own) (h k made e) in
            let names = sym (schema_field_names-parse_schema B L k (schema kind) made parsed) in
            let known = (get_or_create_schema-known B L k (schema kind) m made e).0 names in
            (
              made,
              parsed,
              ap (λ x. x.0) known,
              subst (λ (n : Client B). Matches B n.storage.schemas) (sym (ap (λ x. x.1) known)) h,
            )
      ]

  encode-ok :
      (e : SinkEvent) (made : B.AvroSchema) (empty : B.Record)
      → let names = map (λ ((name, _) : String × String). name) e.columns in
        B.parse_schema (schema_json e.event_type names) ≡ ok made
        → B.new_record made ≡ some empty
        → (payload : B.Payload) × (encode B made (put_all B (row_values e) empty) ≡ ok payload)
  unfolding encode
  encode-ok e made empty parsed fresh =
      let names = map (λ ((name, _) : String × String). name) e.columns in
      let (writer, payload, appended, finished) =
        append-ok (schema_json e.event_type names) made empty (row_values e) parsed fresh
          (row_values-Fills e) in
      (payload, rw (appended, encode) finished)

  -- The schema that a write starts with.
  get_or_create_schema-IsProper :
      (e : SinkEvent) (m : Client B) (kind : EventKind)
      → let names = map (λ ((name, _) : String × String). name) e.columns in
        e.event_type ≡ event_name kind
        → names ≡ schema kind
        → Matches B m.storage.schemas
        → (made : B.AvroSchema) × (B.parse_schema (schema_json e.event_type names) ≡ ok made)
          × ((get_or_create_schema B e.event_type names m).0 ≡ ok made)
          × Matches B (get_or_create_schema B e.event_type names m).1.storage.schemas
  get_or_create_schema-IsProper e m kind named shaped h =
      rw (named, shaped) (get_or_create_schema-Matches kind m h)

  -- A write of an event of the program returns, and the schemas still match the event types.
  pub write_event-Matches :
      (e : SinkEvent) (m : Client B)
      → IsProper e
      → Matches B m.storage.schemas
      → ((write_event B e.event_type e.block_number e.tx_hash e.log_index e.columns m).0 ≡ ok tt)
        × Matches B
            (write_event B e.event_type e.block_number e.tx_hash e.log_index e.columns
              m).1.storage.schemas
  unfolding write_event build_record send_message schema_json
  write_event-Matches e m (kind, named, shaped) h =
      let k = e.event_type in
      let names = map (λ ((name, _) : String × String). name) e.columns in
      let (made, parsed, returned, matches) =
        get_or_create_schema-IsProper e m kind named shaped h in
      let m₁ = (get_or_create_schema B k names m).1 in
      let (empty, fresh) = new_record-some (schema_json k names) made refl parsed in
      let (payload, encoded) = encode-ok e made empty parsed fresh in
      let built : build_record B k made ≡ ok empty = rw (fresh, build_record) refl in
      let row = fill_record B k e.block_number e.tx_hash e.log_index e.columns empty in
      let run : write_event B k e.block_number e.tx_hash e.log_index e.columns m
          ≡ send_message B k e.tx_hash payload m₁ =
        bind-of-ok (get_or_create_schema B k names) _ m returned
        ∙ bind-of-ok (lift (build_record B k made)) _ m₁ built
        ∙ bind-of-ok (lift (encode B made row)) _ m₁
            (ap (encode B made) (fill_record-eq-put_all B e empty) ∙ encoded) in
      (
        ap (λ x. x.0) run
            ∙ send-ok m₁.storage.producer (topic_name B m₁.storage k) payload e.tx_hash 0 m₁.world,
        subst (Matches B) (sym (ap (λ x. x.1.storage.schemas) run)) matches,
      )
