-- ===== src/Storage/Parquet/Writing.antt =====
-- What a write adds: the abstract view of the sink is, for each event type, the batches that its
-- open file has taken.
use polymarket_indexer.Prelude.{
  ℕ, String, ◌≡◌, refl, ap, ◌∙◌, none, some, List, [], ◌∷◌, ◌++◌, arith, eq_iff, map, str_eq,
  Option-cases, inl, inr, if◌then◌else◌, strings_eq_iff,
}
use polymarket_indexer.Prelude.Dict.{lookup, contains_key, lookup-insert}
use polymarket_indexer.Prelude.Outcome.{ok}
use polymarket_indexer.Prelude.Exec.{lift, bind-eq-ok}
use polymarket_indexer.Storage.Arrow.{FilePath, Schema, Disk}
use polymarket_indexer.Storage.Parquet.{
  Machine, get_or_create_schema, expected_schema_names, schema_names, on_world, ensure_dir,
  open_writer, attach_writer, add_writer, ensure_writer, write_batch, write_event, row_arrays,
  file_name,
}
use polymarket_indexer.Storage.Parquet.Schemas.{schema_names-new_schema}

-- What the program relies on of `ArrowWriter`: a new writer holds nothing, and a write that returns
-- has added its batch.
pub record WriterLaws (D : Disk) : Type 0 where
  pub batches : D.Writer → List D.Batch
  pub batches-new_writer :
      (file : D.File) (schema : Schema) (w : D.World) (writer : D.Writer)
      → (D.new_writer file schema w).0 ≡ ok writer
      → batches writer ≡ []
  pub batches-write :
      (b : D.Batch) (writer : D.Writer) (w : D.World)
      → (D.write b (writer, w)).0 ≡ ok tt
      → batches (D.write b (writer, w)).1.0 ≡ batches writer ++ b ∷ []

module _ (D : Disk) (event_type : String) (columns : List String) (m : Machine D)
    (schema : Schema) where
  pub get_or_create_schema-eq-ok :
      (get_or_create_schema D event_type columns m).0 ≡ ok schema
      → (schema_names schema ≡ expected_schema_names columns)
        × ((get_or_create_schema D event_type columns m).1.storage.writers ≡ m.storage.writers)
  unfolding get_or_create_schema
  get_or_create_schema-eq-ok h = elim (Option-cases (lookup event_type m.storage.schemas)) [
    | inl e ↦ ground (arith, schema_names-new_schema columns)
    | inr (s, e) ↦ ground (arith, strings_eq_iff (expected_schema_names columns) (schema_names s))
  ]

module _ (D : Disk) (L : WriterLaws D) where
  -- The batches in the open file of an event type.
  pub pending : Machine D → String → List D.Batch
  pending m k = elim (lookup k m.storage.writers) [ none ↦ [] | some w ↦ L.batches w ]

  pub storage-ensure_dir :
      (dir : FilePath) (m : Machine D) → (ensure_dir D dir m).1.storage ≡ m.storage
  unfolding ensure_dir
  storage-ensure_dir dir m = ground arith

  pending-eq :
      (m n : Machine D) (k : String)
      → m.storage.writers ≡ n.storage.writers
      → pending m k ≡ pending n k
  unfolding pending
  pending-eq m n k e = ground arith

  pending-attach_writer :
      (event_type : String) (schema : Schema) (file : D.File) (m : Machine D) (k : String)
      → lookup event_type m.storage.writers ≡ none
      → (attach_writer D event_type schema file m).0 ≡ ok tt
      → pending (attach_writer D event_type schema file m).1 k ≡ pending m k
  unfolding attach_writer add_writer pending
  pending-attach_writer event_type schema file m k fresh h =
      let (writer, made, _, same) =
        bind-eq-ok (on_world D (D.new_writer file schema)) (add_writer D event_type) m h in
      rw same (
        ground (
          arith,
          L.batches-new_writer file schema m.world writer made,
          lookup-insert event_type k writer m.storage.writers,
          eq_iff event_type k,
        ))

  pending-open_writer :
      (event_type : String) (dir : FilePath) (schema : Schema) (m : Machine D) (k : String)
      → lookup event_type m.storage.writers ≡ none
      → (open_writer D event_type dir schema m).0 ≡ ok tt
      → pending (open_writer D event_type dir schema m).1 k ≡ pending m k
  unfolding open_writer
  pending-open_writer event_type dir schema m k fresh h =
      let path = dir ++ file_name (D.timestamp_millis m.world) m.storage.file_set_id ∷ [] in
      let (file, _, attached, same) =
        bind-eq-ok (on_world D (D.create_file path)) (attach_writer D event_type schema) m h in
      let n = (on_world D (D.create_file path) m).1 in
      ap (λ n. pending n k) same
      ∙ pending-attach_writer event_type schema file n k fresh attached
      ∙ pending-eq n m k refl

  pending-ensure_writer :
      (event_type : String) (dir : FilePath) (schema : Schema) (m : Machine D) (k : String)
      → (ensure_writer D event_type dir schema m).0 ≡ ok tt
      → pending (ensure_writer D event_type dir schema m).1 k ≡ pending m k
  unfolding ensure_writer contains_key
  pending-ensure_writer event_type dir schema m k h =
      ground (arith, pending-open_writer event_type dir schema m k)

  pending-write_batch :
      (event_type : String) (b : D.Batch) (m : Machine D) (k : String)
      → (write_batch D event_type b m).0 ≡ ok tt
      → pending (write_batch D event_type b m).1 k
        ≡ (if str_eq event_type k then pending m k ++ b ∷ [] else pending m k)
  unfolding write_batch pending
  pending-write_batch event_type b m k h =
      elim (Option-cases (lookup event_type m.storage.writers)) [
        | inl e ↦ ground arith
        | inr (writer, e) ↦ ground (
          arith,
          L.batches-write b writer m.world,
          lookup-insert event_type k (D.write b (writer, m.world)).1.0 m.storage.writers,
          eq_iff event_type k,
        )
      ]

  -- A write that returns has added one batch to the file of its event type, and none to another. The
  -- batch was made of the event under a schema that has the names of the event's columns.
  pub write_event-appends :
      (event_type : String) (block_number : ℕ) (tx_hash : String) (log_index : ℕ)
      (columns : List (String × String)) (m : Machine D) (k : String)
      → (write_event D event_type block_number tx_hash log_index columns m).0 ≡ ok tt
      → let n = (write_event D event_type block_number tx_hash log_index columns m).1 in
        (schema : Schema) × (b : D.Batch) × (schema_names schema
          ≡ expected_schema_names (map (λ (name, _). name) columns))
        × (D.new_batch schema (row_arrays event_type block_number tx_hash log_index columns) ≡ ok b)
        × (pending n k ≡ (if str_eq event_type k then pending m k ++ b ∷ [] else pending m k))
  unfolding write_event
  write_event-appends event_type block_number tx_hash log_index columns m k h =
      let names = map (λ ((name, _) : String × String). name) columns in
      let dir = m.storage.base_path ∷ event_type ∷ [] in
      let (schema, made, h₁, s₁) = bind-eq-ok (get_or_create_schema D event_type names) _ m h in
      let m₁ = (get_or_create_schema D event_type names m).1 in
      let (_, there, h₂, s₂) = bind-eq-ok (ensure_dir D dir) _ m₁ h₁ in
      let m₂ = (ensure_dir D dir m₁).1 in
      let (_, opened, h₃, s₃) = bind-eq-ok (ensure_writer D event_type dir schema) _ m₂ h₂ in
      let m₃ = (ensure_writer D event_type dir schema m₂).1 in
      let (b, fits, h₄, s₄) = bind-eq-ok (lift (D.new_batch schema _)) _ m₃ h₃ in
      let (named, kept) = get_or_create_schema-eq-ok D event_type names m schema made in
      (
        schema,
        b,
        named,
        fits,
        ap (λ n. pending n k) (s₁ ∙ s₂ ∙ s₃ ∙ s₄)
            ∙ pending-write_batch event_type b m₃ k h₄
            ∙ ap (λ old. if str_eq event_type k then old ++ b ∷ [] else old)
                (pending-ensure_writer event_type dir schema m₂ k opened
                  ∙ pending-eq m₂ m₁ k (ap (λ s. s.writers) (storage-ensure_dir dir m₁))
                  ∙ pending-eq m₁ m k kept),
      )
