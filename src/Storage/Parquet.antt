-- ===== src/Storage/Parquet.antt =====
-- `ParquetStorage` of src/storage.rs: one Arrow writer for each event type, with a schema that is
-- fixed by the first event of the type.
pub mod Schemas
pub mod Validity
pub mod Writing
pub mod Rotation
pub mod Paths
pub mod Ledger
pub mod Refinement
pub mod Names
pub mod Success
use polymarket_indexer.Prelude.{
  ℕ, String, ◌<>◌, Option, none, some, Bool, List, [], ◌∷◌, ◌++◌, map, not, strings_eq,
  saturating_add64, if◌then◌else◌,
}
use polymarket_indexer.Prelude.Dict.{Dict, lookup, insert, contains_key}
use polymarket_indexer.Prelude.Decimal.{decimal}
use polymarket_indexer.Prelude.Outcome.{Result, ok, err}
use polymarket_indexer.Prelude.Exec.{Exec, pure, fail, lift, ◌>>=◌, ◌>>◌}
use polymarket_indexer.Storage.Sink.{EventSink}
use polymarket_indexer.Storage.Arrow.{
  DataType, utf8, uint64, Field, Schema, Column, string_array, uint64_array, FilePath, Disk,
}

pub record ParquetStorage (D : Disk) : Type 0 where
  pub base_path : String
  pub writers : Dict D.Writer
  pub schemas : Dict Schema
  pub file_set_id : ℕ

-- The object, and the world in which its methods run.
pub record Machine (D : Disk) : Type 0 where
  pub storage : ParquetStorage D
  pub world : D.World

unfoldable pub required : String → DataType → Field
required name type = record { name = name; data_type = type; nullable = Bool.false }

unfoldable pub base_fields : Schema
unfolding required
base_fields =
    required "event_type" utf8
    ∷ required "block_number" uint64
    ∷ required "transaction_hash" utf8
    ∷ required "log_index" uint64
    ∷ []

unfoldable pub expected_schema_names : List String → List String
expected_schema_names columns =
    ("event_type" ∷ "block_number" ∷ "transaction_hash" ∷ "log_index" ∷ []) ++ columns

unfoldable pub schema_names : Schema → List String
schema_names schema = map (λ (f : Field). f.name) schema

-- The schema that is made for columns of these names.
unfoldable pub new_schema : List String → Schema
unfolding base_fields required
new_schema columns = base_fields ++ map (λ name. required name utf8) columns

-- The arrays of a batch with one row.
unfoldable pub row_arrays : String → ℕ → String → ℕ → List (String × String) → List Column
row_arrays event_type block_number tx_hash log_index columns =
    (string_array (event_type ∷ [])
      ∷ uint64_array (block_number ∷ [])
      ∷ string_array (tx_hash ∷ [])
      ∷ uint64_array (log_index ∷ [])
      ∷ [])
    ++ map (λ (name, value). string_array (value ∷ [])) columns

-- "{millis}_set{id}.parquet"
unfoldable pub file_name : ℕ → ℕ → String
file_name millis id = decimal millis <> "_set" <> decimal id <> ".parquet"

module _ (D : Disk) where
  open D use {World, Writer, Batch}

  -- `ParquetStorage::new`
  unfoldable pub new : String → ParquetStorage D
  new base_path = record { base_path = base_path; writers = []; schemas = []; file_set_id = 0 }

  unfoldable pub get_or_create_schema : String → List String → Exec (Machine D) Schema
  get_or_create_schema event_type columns m = elim (lookup event_type m.storage.schemas) [
    | some schema ↦
        if not (strings_eq (expected_schema_names columns) (schema_names schema))
        then (err ("schema mismatch for event type '" <> event_type <> "'"), m)
        else (ok schema, m)
    | none ↦
        let schema = new_schema columns in
        let schemas = insert event_type schema m.storage.schemas in
        (ok schema, record m { storage = record (m.storage) { schemas = schemas } })
  ]

  -- A call that changes the world alone.
  abbrev pub on_world {ℓ} : {A : Type ℓ} → Exec World A → Exec (Machine D) A
  on_world f m = let (r, w) = f m.world in (r, record m { world = w })

  -- `drain` empties the map first; a `?` drops the writers that are left without closing them.
  unfoldable pub close_all : List (String × Writer) → Exec World (Unit {0})
  close_all [] w = (ok tt, w)
  close_all ((event_type, writer) ∷ rest) w = (do D.close writer; close_all rest) w

  unfoldable pub close_writers : Exec (Machine D) (Unit {0})
  close_writers m =
      let (r, w) = close_all m.storage.writers m.world in
      (r, record { storage = record (m.storage) { writers = [] }; world = w })

  unfoldable pub bump_file_set : Exec (Machine D) (Unit {0})
  bump_file_set m =
      let id = saturating_add64 m.storage.file_set_id 1 in
      (ok tt, record m { storage = record (m.storage) { file_set_id = id } })

  unfoldable pub rotate_writers : Exec (Machine D) (Unit {0})
  rotate_writers = do close_writers; bump_file_set

  unfoldable pub ensure_dir : FilePath → Exec (Machine D) (Unit {0})
  ensure_dir dir m =
      if not (D.exists dir m.world) then on_world (D.create_dir_all dir) m else (ok tt, m)

  unfoldable pub add_writer : String → Writer → Exec (Machine D) (Unit {0})
  add_writer event_type writer m =
      let writers = insert event_type writer m.storage.writers in
      (ok tt, record m { storage = record (m.storage) { writers = writers } })

  unfoldable pub attach_writer : String → Schema → D.File → Exec (Machine D) (Unit {0})
  attach_writer event_type schema file = do
    writer ← on_world (D.new_writer file schema)
    add_writer event_type writer

  unfoldable pub open_writer : String → FilePath → Schema → Exec (Machine D) (Unit {0})
  open_writer event_type dir schema m =
      let name = file_name (D.timestamp_millis m.world) m.storage.file_set_id in
      (do file ← on_world (D.create_file (dir ++ name ∷ [])); attach_writer event_type schema file)
        m

  unfoldable pub ensure_writer : String → FilePath → Schema → Exec (Machine D) (Unit {0})
  ensure_writer event_type dir schema m =
      if not (contains_key event_type m.storage.writers)
      then open_writer event_type dir schema m
      else (ok tt, m)

  -- `get_mut(event_type).unwrap()`, and the write through it.
  unfoldable pub write_batch : String → Batch → Exec (Machine D) (Unit {0})
  write_batch event_type batch m = elim (lookup event_type m.storage.writers) [
    | none ↦ (err "called `Option::unwrap()` on a `None` value", m)
    | some writer ↦
        let (r, (writer', w)) = D.write batch (writer, m.world) in
        let writers = insert event_type writer' m.storage.writers in
        (r, record { storage = record (m.storage) { writers = writers }; world = w })
  ]

  unfoldable pub write_event :
      String → ℕ → String → ℕ → List (String × String) → Exec (Machine D) (Unit {0})
  write_event event_type block_number tx_hash log_index columns m =
      let dir = m.storage.base_path ∷ event_type ∷ [] in
      (do
        schema ← get_or_create_schema event_type (map (λ (name, _). name) columns)
        ensure_dir dir
        ensure_writer event_type dir schema
        let arrays = row_arrays event_type block_number tx_hash log_index columns
        batch ← lift (D.new_batch schema arrays)
        write_batch event_type batch)
        m

  -- `impl EventSink for ParquetStorage`
  abbrev pub parquet_sink : EventSink
  parquet_sink = record {
    State = Machine D;
    write_event = write_event;
    rotate = rotate_writers;
    close = close_writers;
  }
