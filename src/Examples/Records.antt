-- ===== src/Examples/Records.antt =====
-- The record of an event with the greatest block number, in clients that keep what is put.
use polymarket_indexer.Prelude.{
  String, ◌≡◌, refl, ap, sym, Option, some, List, [], ◌∷◌, map, arith, All,
}
use polymarket_indexer.Prelude.Dict.{lookup}
use polymarket_indexer.Prelude.Outcome.{ok}
use polymarket_indexer.Contracts.{order_cancelled}
use polymarket_indexer.Decode.{event_name}
use polymarket_indexer.Decode.Columns.{schema}
use polymarket_indexer.Storage.Avro.{AvroValue, FieldJson, Broker}
use polymarket_indexer.Storage.Calls.{SinkEvent, IsProper}
use polymarket_indexer.Storage.Kafka.{expected_schema_names, schema_field_names, fill_record}
use polymarket_indexer.Storage.Kafka.Records.{RecordLaws, text, number, fill_record-reads}

-- The fields, and what was put, the last first.
abbrev Form : Type 0
Form = List String × List (String × AvroValue)

abbrev forms : Broker
forms = record {
  World = Unit {0};
  Producer = Unit {0};
  AvroSchema = List String;
  Record = Form;
  AvroWriter = List Form;
  Payload = List Form;
  create_producer = λ settings w. (ok tt, w);
  parse_schema = λ json. ok (map (λ (f : FieldJson). f.name) json.fields);
  record_fields = λ names. some names;
  new_record = λ names. some (names, []);
  put = λ name value form. (form.0, (name, value) ∷ form.1);
  new_writer = λ names. [];
  append = λ form writer. ok (form ∷ writer);
  into_inner = λ writer. ok writer;
  send = λ producer topic payload key seconds w. (ok tt, w);
}

abbrev fields_of : Option Form → List String
fields_of (some form) = form.0
fields_of _ = []

unfoldable record_laws : RecordLaws forms
unfolding lookup schema_field_names
record_laws = record {
  field_names = λ form. form.0;
  get = λ name form. lookup name form.1;
  field_names-new_record = λ names form h. ap fields_of (sym h);
  field_names-put = λ name value form. refl;
  get-put = λ name asked value form h. refl;
}

abbrev event : SinkEvent
event = record {
  event_type = "OrderCancelled";
  block_number = 18446744073709551615;
  tx_hash = "5";
  log_index = 0;
  columns = ("order_hash", "70") ∷ [];
}

event-IsProper : IsProper event
unfolding event_name schema
event-IsProper = (order_cancelled, refl, refl)

abbrev names : List String
names = "event_type" ∷ "block_number" ∷ "transaction_hash" ∷ "log_index" ∷ "order_hash" ∷ []

named : schema_field_names forms names ≡ expected_schema_names ("order_hash" ∷ [])
unfolding schema_field_names expected_schema_names
named = refl

abbrev filled : Form
filled = fill_record forms "OrderCancelled" 18446744073709551615 "5" 0 event.columns (names, [])

fill_record-reads_example :
    (text (record_laws.get "event_type" filled) ≡ some "OrderCancelled")
    × (number (record_laws.get "block_number" filled) ≡ some 18446744073709551615)
    × (text (record_laws.get "transaction_hash" filled) ≡ some "5")
    × (number (record_laws.get "log_index" filled) ≡ some 0)
    × All
        (λ ((name, value) : String × String). text (record_laws.get name filled) ≡ some value)
        event.columns
fill_record-reads_example =
    fill_record-reads forms record_laws event names (names, []) event-IsProper (omega arith)
      (omega arith) named refl
