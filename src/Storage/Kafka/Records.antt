-- ===== src/Storage/Kafka/Records.antt =====
-- What a reader gets back from the record that the Kafka sink fills for an event.
use polymarket_indexer.Prelude.{
  ℕ, ◌-◌, ◌<◌, String, ◌≡◌, refl, ap, ◌∙◌, Bool, true, false, not, ◌&&◌, Option, none, some, List,
  [], ◌∷◌, map, str_eq, eq_iff, arith, u64_mod, All, if◌then◌else◌,
}
use polymarket_indexer.Prelude.Dict.{contains}
use polymarket_indexer.Contracts.{
  EventKind, condition_preparation, position_split, positions_merge, payout_redemption,
  order_filled, orders_matched, order_cancelled, market_prepared, question_prepared,
  positions_converted,
}
use polymarket_indexer.Decode.Columns.{schema}
use polymarket_indexer.Storage.Avro.{ℤ, pos, negsuc, AvroValue, string, long, as_i64, Broker}
use polymarket_indexer.Storage.Calls.{SinkEvent, IsProper}
use polymarket_indexer.Storage.Responsive.{put_all}
use polymarket_indexer.Storage.Kafka.{expected_schema_names, schema_field_names, fill_record}
use polymarket_indexer.Storage.Kafka.Success.{text_values, row_values, fill_record-eq-put_all}

-- `i as u64`.
unfoldable pub as_u64 : ℤ → ℕ
as_u64 (pos n) = n
as_u64 (negsuc n) = u64_mod - 1 - n

-- A field that is read as a text, and one that is read as a number by a cast to `u64`.
abbrev pub text : Option AvroValue → Option String
text (some (string s)) = some s
text _ = none

abbrev pub number : Option AvroValue → Option ℕ
number (some (long i)) = some (as_u64 i)
number _ = none

as_u64-as_i64 : (n : ℕ) → n < u64_mod → as_u64 (as_i64 n) ≡ n
unfolding as_i64 as_u64
as_u64-as_i64 n h = ground arith

-- What the program relies on of the records of `apache_avro`: a new record has the fields of its
-- schema, and `put` under the name of a field sets that field and no other.
pub record RecordLaws (B : Broker) : Type 0 where
  pub field_names : B.Record → List String
  pub get : String → B.Record → Option AvroValue
  pub field_names-new_record :
      (avro : B.AvroSchema) (r : B.Record)
      → B.new_record avro ≡ some r
      → field_names r ≡ schema_field_names B avro
  pub field_names-put :
      (name : String) (value : AvroValue) (r : B.Record)
      → field_names (B.put name value r) ≡ field_names r
  pub get-put :
      (name asked : String) (value : AvroValue) (r : B.Record)
      → contains name (field_names r) ≡ true
      → get asked (B.put name value r) ≡ (if str_eq name asked then some value else get asked r)

are_distinct : List String → Bool
unfolding contains
are_distinct [] = true
are_distinct (x ∷ xs) = not (contains x xs) && are_distinct xs

are_among : List String → List String → Bool
unfolding contains
are_among [] names = true
are_among (x ∷ xs) names = contains x names && are_among xs names

-- The names of the fields of each type are different.
are_distinct-expected_schema_names :
    (k : EventKind)
    → (are_distinct (expected_schema_names (schema k)) ≡ true)
      × (are_among (expected_schema_names (schema k)) (expected_schema_names (schema k)) ≡ true)
unfolding are_distinct are_among contains expected_schema_names schema
are_distinct-expected_schema_names condition_preparation = (refl, refl)
are_distinct-expected_schema_names position_split = (refl, refl)
are_distinct-expected_schema_names positions_merge = (refl, refl)
are_distinct-expected_schema_names payout_redemption = (refl, refl)
are_distinct-expected_schema_names order_filled = (refl, refl)
are_distinct-expected_schema_names orders_matched = (refl, refl)
are_distinct-expected_schema_names order_cancelled = (refl, refl)
are_distinct-expected_schema_names market_prepared = (refl, refl)
are_distinct-expected_schema_names question_prepared = (refl, refl)
are_distinct-expected_schema_names positions_converted = (refl, refl)

abbrev names_of : List (String × AvroValue) → List String
names_of values = map (λ ((name, _) : String × AvroValue). name) values

names_of-text_values :
    (columns : List (String × String))
    → names_of (text_values columns) ≡ map (λ ((name, _) : String × String). name) columns
names_of-text_values [] = refl
names_of-text_values ((name, value) ∷ columns) = ap (λ l. name ∷ l) (names_of-text_values columns)

names_of-row_values :
    (e : SinkEvent)
    → names_of (row_values e)
      ≡ expected_schema_names (map (λ ((name, _) : String × String). name) e.columns)
unfolding expected_schema_names
names_of-row_values e = simp names_of-text_values

module _ (B : Broker) (L : RecordLaws B) where
  open L use {field_names, get, field_names-put, get-put}

  get-put_all-other :
      (asked : String) (values : List (String × AvroValue)) (r : B.Record)
      → contains asked (names_of values) ≡ false
      → are_among (names_of values) (field_names r) ≡ true
      → get asked (put_all B values r) ≡ get asked r
  unfolding put_all contains are_among
  get-put_all-other asked [] r absent among = refl
  get-put_all-other asked ((name, value) ∷ values) r absent among =
      let n = B.put name value r in
      let later : are_among (names_of values) (field_names n) ≡ true =
        rw (field_names-put name value r) (ground arith) in
      get-put_all-other asked values n (ground arith) later
      ∙ ground (arith, get-put name asked value r)

  -- Each value that is put under a name of its own is there in the end.
  get-put_all :
      (values : List (String × AvroValue)) (r : B.Record)
      → are_distinct (names_of values) ≡ true
      → are_among (names_of values) (field_names r) ≡ true
      → All
          (λ ((name, value) : String × AvroValue). get name (put_all B values r) ≡ some value)
          values
  unfolding put_all are_distinct are_among
  get-put_all [] r distinct among = tt
  get-put_all ((name, value) ∷ values) r distinct among =
      let n = B.put name value r in
      let later : are_among (names_of values) (field_names n) ≡ true =
        rw (field_names-put name value r) (ground arith) in
      (
        get-put_all-other name values n (ground arith) later
            ∙ ground (arith, get-put name name value r, eq_iff name name),
        get-put_all values n (ground arith) later,
      )

  All-text :
      (columns : List (String × String)) (r : B.Record)
      → All (λ ((name, value) : String × AvroValue). get name r ≡ some value) (text_values columns)
      → All (λ ((name, value) : String × String). text (get name r) ≡ some value) columns
  All-text [] r h = tt
  All-text ((name, value) ∷ columns) r h = (ap text h.0, All-text columns r h.1)

  -- From the record of an event of the contracts, with a block number and a log index of 64 bits, a
  -- reader gets back the event: its type and hash and the value of each of its columns as texts, and
  -- its two numbers by a cast of `long` to `u64`.
  pub fill_record-reads :
      (e : SinkEvent) (avro : B.AvroSchema) (empty : B.Record)
      → IsProper e
      → e.block_number < u64_mod
      → e.log_index < u64_mod
      → schema_field_names B avro
        ≡ expected_schema_names (map (λ ((name, _) : String × String). name) e.columns)
      → B.new_record avro ≡ some empty
      → let r = fill_record B e.event_type e.block_number e.tx_hash e.log_index e.columns empty in
        (text (get "event_type" r) ≡ some e.event_type)
        × (number (get "block_number" r) ≡ some e.block_number)
        × (text (get "transaction_hash" r) ≡ some e.tx_hash)
        × (number (get "log_index" r) ≡ some e.log_index)
        × All (λ ((name, value) : String × String). text (get name r) ≡ some value) e.columns
  fill_record-reads e avro empty (kind, named, shaped) block index names fresh =
      let expected = ap expected_schema_names shaped in
      let (distinct, among) = are_distinct-expected_schema_names kind in
      let own : names_of (row_values e) ≡ expected_schema_names (schema kind) =
        names_of-row_values e ∙ expected in
      let had : field_names empty ≡ expected_schema_names (schema kind) =
        L.field_names-new_record avro empty fresh ∙ names ∙ expected in
      let (t, (b, (h, (i, columns)))) =
        get-put_all (row_values e) empty (rw own distinct) (rw (own, had) among) in
      rw (fill_record-eq-put_all B e empty) (
        ap text t,
        ap number b ∙ ap some (as_u64-as_i64 e.block_number block),
        ap text h,
        ap number i ∙ ap some (as_u64-as_i64 e.log_index index),
        All-text e.columns _ columns,
      )
