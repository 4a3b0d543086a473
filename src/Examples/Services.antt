-- ===== src/Examples/Services.antt =====
-- A file system, brokers, a metrics library and a network.
use polymarket_indexer.Prelude.{
  Bool, true, false, ◌≡◌, ◌≤◌, ◌⊎◌, inr, length, strings_eq, strings_eq_iff, if◌then◌else◌, inl,
  arith, String, refl, some, List, [], ◌∷◌, ◌++◌, map,
}
use polymarket_indexer.Prelude.Outcome.{ok}
use polymarket_indexer.Storage.Avro.{AvroValue, FieldJson, Broker}
use polymarket_indexer.Storage.Parquet.Paths.{DiskLaws}
use polymarket_indexer.Storage.Reliable.{IsReliable}
use polymarket_indexer.Storage.Responsive.{put_all, IsResponsive}
use polymarket_indexer.Storage.Kafka.Schemas.{SchemaLaws}
use polymarket_indexer.Storage.Kafka.Sending.{Message, BrokerLaws}
use polymarket_indexer.Metrics.Registry.{Prometheus}
use polymarket_indexer.Metrics.Registry.Registration.{RegistryLaws}
use polymarket_indexer.Metrics.Server.{Network}
use polymarket_indexer.Frontfill.Start.{Host, Worlds}
use polymarket_indexer.Examples.Fixtures.{Batch, Writer}
use polymarket_indexer.Storage.Arrow.{Disk, FilePath}

-- A disk that knows which paths are there, and which writers were closed. Its clock moves with each path.
abbrev pub Files : Type 0
Files = List FilePath × List Writer

abbrev pub is_there : FilePath → List FilePath → Bool
is_there p [] = false
is_there p (q ∷ qs) = if strings_eq p q then true else is_there p qs

pub is_there-cons :
    (p q : FilePath) (qs : List FilePath)
    → is_there p (q ∷ qs) ≡ true
    → (is_there p qs ≡ true) ⊎ (p ≡ q)
is_there-cons p q qs h = ground (arith, strings_eq_iff p q)

pub same_length : (p q : FilePath) → p ≡ q → length p ≤ length q
same_length p q e = rw e (omega arith)

abbrev pub file_system : Disk
file_system = record {
  World = Files;
  File = FilePath;
  Writer = Writer;
  Batch = Batch;
  timestamp_millis = λ w. length w.0;
  exists = λ path w. is_there path w.0;
  create_dir_all = λ path w. (ok tt, (path ∷ w.0, w.1));
  create_file = λ path w. (ok path, (path ∷ w.0, w.1));
  new_writer = λ file schema w. (ok (file, []), w);
  new_batch = λ schema columns. ok columns;
  write = λ b (writer, w). (ok tt, ((writer.0, writer.1 ++ b ∷ []), w));
  close = λ writer w. (ok tt, (w.0, w.1 ++ writer ∷ []));
}

unfoldable pub disk_laws : DiskLaws file_system
disk_laws = record {
  writing = record {
    batches = λ writer. writer.1;
    batches-new_writer = λ file schema w writer h. cc;
    batches-write = λ b writer w h. refl;
  };
  closing = record {
    closed = λ w. w.1;
    closed-close = λ writer w h. refl;
    closed-close_failed = λ writer w e h. cc;
  };
  closed-create_dir_all = λ dir w. refl;
  closed-create_file = λ path w free. refl;
  closed-new_writer = λ file schema w. refl;
  closed-write = λ b writer w. refl;
  exists-create_dir_all = λ dir p w h. elim (is_there-cons p dir w.0 h) [
    | inl e ↦ inl e
    | inr e ↦ inr (same_length p dir e)
  ];
  later-create_dir_all = λ dir w. omega arith;
  exists-create_file = λ path p w h. is_there-cons p path w.0 h;
  later-create_file = λ path w. omega arith;
  new_writer-IsQuiet = λ file schema w. (λ p. refl, omega arith);
  write-IsQuiet = λ b writer w. (λ p. refl, omega arith);
  close-IsQuiet = λ writer w. (λ p. refl, omega arith);
}

pub file_system-IsReliable : IsReliable file_system
file_system-IsReliable = record {
  create_dir_all-ok = λ dir w. refl;
  create_file-ok = λ path w. (path, refl);
  new_writer-ok = λ file schema w. ((file, []), refl);
  new_batch-ok = λ n schema columns fits. (columns, refl);
  write-ok = λ batch writer w. refl;
  close-ok = λ writer w. refl;
}

-- A payload is the row itself.
abbrev pub Row : Type 0
Row = List (String × AvroValue)

abbrev pub broker : Broker
broker = record {
  World = List (Message Row);
  Producer = Unit {0};
  AvroSchema = List String;
  Record = Row;
  AvroWriter = Row;
  Payload = Row;
  create_producer = λ settings w. (ok tt, w);
  parse_schema = λ json. ok (map (λ (f : FieldJson). f.name) json.fields);
  record_fields = λ names. some names;
  new_record = λ names. some [];
  put = λ name value row. row ++ (name, value) ∷ [];
  new_writer = λ names. [];
  append = λ row writer. ok row;
  into_inner = λ writer. ok writer;
  send = λ producer topic payload key seconds w.
      (ok tt, w ++ record { topic = topic; key = key; payload = payload } ∷ []);
}

abbrev pub schema_laws : SchemaLaws broker
schema_laws = record { record_fields-parse_schema = λ json schema _ h. cc }

abbrev pub broker_laws : BrokerLaws broker
broker_laws = record {
  schemas = schema_laws;
  sent = λ w. w;
  sent-create_producer = λ settings w. refl;
  sent-send = λ producer topic payload key seconds w h. refl;
}

pub broker-IsResponsive : IsResponsive broker
broker-IsResponsive = record {
  create_producer-ok = λ settings w. (tt, refl);
  parse_schema-ok = λ json h. (map (λ (f : FieldJson). f.name) json.fields, refl);
  new_record-some = λ json schema _ h. ([], refl);
  append-ok = λ json schema empty values _ _ h.
      (put_all broker values empty, put_all broker values empty, refl, refl);
  send-ok = λ producer topic payload key seconds w. refl;
}

-- A registry is the list of its names.
abbrev pub prometheus : Prometheus
prometheus = record {
  Registry = List String;
  Metric = String;
  Bytes = String;
  new_registry = [];
  new_metric = λ o. ok o.name;
  register_metric = λ name names. (ok tt, names ++ name ∷ []);
  encode = λ names. ok "";
  format_type = "text/plain";
  as_bytes = λ s. s;
}

abbrev pub registry_laws : RegistryLaws prometheus
registry_laws = record {
  name_of = λ name. name;
  names = λ names. names;
  names-new_registry = refl;
  new_metric-ok = λ o h. (o.name, refl, refl);
  register_metric-ok = λ name names h. (refl, refl);
}

abbrev pub network : Network
network = record {
  World = Unit {0};
  Address = String;
  Listener = String;
  parse_address = λ text. ok text;
  bind = λ address w. (ok address, w);
}

abbrev pub host : Host
host = record {
  disk = file_system;
  broker = broker;
  prometheus = prometheus;
  network = network;
  kafka_feature = true;
}

abbrev pub worlds : Worlds host
worlds = record { disk = ([], []); broker = []; network = tt }
