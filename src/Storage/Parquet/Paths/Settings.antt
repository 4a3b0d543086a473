-- ===== src/Storage/Parquet/Paths/Settings.antt =====
-- A write leaves the base path and the file set of the Parquet sink alone.
use polymarket_indexer.Prelude.{ℕ, String, ◌≡◌, List, [], ◌∷◌, ◌++◌, arith}
use polymarket_indexer.Prelude.Exec.{Keeps, Keeps-bind, lift}
use polymarket_indexer.Storage.Arrow.{FilePath, Schema, Disk}
use polymarket_indexer.Storage.Calls.{SinkEvent}
use polymarket_indexer.Storage.Parquet.{
  Machine, get_or_create_schema, on_world, ensure_dir, open_writer, attach_writer, add_writer,
  ensure_writer, write_batch, write_event, file_name,
}

module _ (D : Disk) (base : String) (set : ℕ) where
  abbrev pub Stays : Machine D → Type 0
  Stays m = (m.storage.base_path ≡ base) × (m.storage.file_set_id ≡ set)

  pub get_or_create_schema-Stays :
      (event_type : String) (columns : List String)
      → Keeps Stays (get_or_create_schema D event_type columns)
  unfolding get_or_create_schema
  get_or_create_schema-Stays event_type columns m h = ground arith

  pub ensure_dir-Stays : (dir : FilePath) → Keeps Stays (ensure_dir D dir)
  unfolding ensure_dir
  ensure_dir-Stays dir m h = ground arith

  open_writer-Stays :
      (event_type : String) (dir : FilePath) (schema : Schema)
      → Keeps Stays (open_writer D event_type dir schema)
  unfolding open_writer attach_writer add_writer
  open_writer-Stays event_type dir schema m =
      Keeps-bind Stays
        (on_world D (
          D.create_file (dir ++ file_name (D.timestamp_millis m.world) m.storage.file_set_id ∷ [])))
        (attach_writer D event_type schema) (λ s h. h)
        (λ file.
          Keeps-bind Stays (on_world D (D.new_writer file schema)) (add_writer D event_type)
            (λ s h. h) (λ writer s h. h))
        m

  ensure_writer-Stays :
      (event_type : String) (dir : FilePath) (schema : Schema)
      → Keeps Stays (ensure_writer D event_type dir schema)
  unfolding ensure_writer
  ensure_writer-Stays event_type dir schema m h =
      ground (arith, open_writer-Stays event_type dir schema m h)

  write_batch-Stays : (event_type : String) (b : D.Batch) → Keeps Stays (write_batch D event_type b)
  unfolding write_batch
  write_batch-Stays event_type b m h = ground arith

  pub write_event-Stays :
      (e : SinkEvent)
      → Keeps Stays (write_event D e.event_type e.block_number e.tx_hash e.log_index e.columns)
  unfolding write_event
  write_event-Stays e m =
      let dir = m.storage.base_path ∷ e.event_type ∷ [] in
      Keeps-bind Stays (get_or_create_schema D e.event_type _) _
        (get_or_create_schema-Stays e.event_type _)
        (λ schema. Keeps-bind Stays (ensure_dir D dir) _ (ensure_dir-Stays dir) (λ _.
          Keeps-bind Stays (ensure_writer D e.event_type dir schema) _
            (ensure_writer-Stays e.event_type dir schema)
            (λ _.
              Keeps-bind Stays (lift (D.new_batch schema _)) _ (λ s h. h)
                (λ b. write_batch-Stays e.event_type b))))
        m
