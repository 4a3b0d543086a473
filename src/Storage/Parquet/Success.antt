-- ===== src/Storage/Parquet/Success.antt =====
-- On a disk that works, the Parquet sink takes every event that has the columns of its type.
use mathlib.Core.Path.{subst}
use polymarket_indexer.Prelude.{
  String, ◌≡◌, ◌≢◌, refl, ap, sym, ◌∙◌, none, some, List, [], ◌∷◌, ◌++◌, arith, map, eq_iff, str_eq,
  Option-cases, Bool-cases, inl, inr,
}
use polymarket_indexer.Prelude.Dict.{Dict, lookup, insert, contains_key, lookup-insert}
use polymarket_indexer.Prelude.Outcome.{Result, ok}
use polymarket_indexer.Prelude.Exec.{lift, bind-of-ok}
use polymarket_indexer.Decode.Columns.{schema_of, schema_of-event_name}
use polymarket_indexer.Storage.Arrow.{FilePath, Schema, string_array, Disk}
use polymarket_indexer.Storage.Calls.{SinkEvent, IsProper}
use polymarket_indexer.Storage.Reliable.{Fits, text_fields, IsReliable}
use polymarket_indexer.Storage.Parquet.{
  ParquetStorage, Machine, required, base_fields, new_schema, get_or_create_schema, on_world,
  ensure_dir, open_writer, attach_writer, add_writer, ensure_writer, write_batch, write_event,
  row_arrays, close_all, close_writers, rotate_writers, bump_file_set, file_name,
}
use polymarket_indexer.Storage.Parquet.Rotation.{rotate_writers_state}
use polymarket_indexer.Storage.Parquet.Schemas.{
  schema_names-new_schema, get_or_create_schema-known, get_or_create_schema-new,
}

-- Each schema that was made is that of its event type.
abbrev pub Agrees : Dict Schema → Type 0
Agrees schemas =
    (k : String) (schema : Schema)
    → lookup k schemas ≡ some schema
    → schema ≡ new_schema (schema_of k)

Agrees-insert :
    (k : String) (schemas : Dict Schema)
    → Agrees schemas
    → Agrees (insert k (new_schema (schema_of k)) schemas)
Agrees-insert k schemas h j schema found = elim (Bool-cases (str_eq k j)) [
  | inl same ↦
      let names : k ≡ j = (eq_iff k j).0 same in
      subst (λ n. schema ≡ new_schema (schema_of n)) names
        (ground (arith, lookup-insert k j (new_schema (schema_of k)) schemas))
  | inr differs ↦ h j schema (ground (arith, lookup-insert k j (new_schema (schema_of k)) schemas))
]

row_columns-Fits :
    (columns : List (String × String))
    → Fits 1
        (text_fields (map (λ ((name, _) : String × String). name) columns))
        (map (λ ((name, value) : String × String). string_array (value ∷ [])) columns)
unfolding required
row_columns-Fits [] = tt
row_columns-Fits (column ∷ columns) = (refl, refl, row_columns-Fits columns)

row_arrays-Fits :
    (e : SinkEvent)
    → Fits 1
        (new_schema (map (λ ((name, _) : String × String). name) e.columns))
        (row_arrays e.event_type e.block_number e.tx_hash e.log_index e.columns)
unfolding new_schema row_arrays base_fields required
row_arrays-Fits e =
    (refl, refl, (refl, refl, (refl, refl, (refl, refl, row_columns-Fits e.columns))))

module _ (D : Disk) (reliable : IsReliable D) where
  open reliable use {
    create_dir_all-ok, create_file-ok, new_writer-ok, new_batch-ok, write-ok, close-ok,
  }

  get_or_create_schema-Agrees :
      (k : String) (m : Machine D)
      → Agrees m.storage.schemas
      → ((get_or_create_schema D k (schema_of k) m).0 ≡ ok (new_schema (schema_of k)))
        × Agrees (get_or_create_schema D k (schema_of k) m).1.storage.schemas
  unfolding get_or_create_schema
  get_or_create_schema-Agrees k m h = elim (Option-cases (lookup k m.storage.schemas)) [
    | inl e ↦ (
      (get_or_create_schema-new D k (schema_of k) m e).0,
      rw (e, get_or_create_schema) (Agrees-insert k m.storage.schemas h),
    )
    | inr (schema, e) ↦
        let same : schema ≡ new_schema (schema_of k) = h k schema e in
        let names = sym (schema_names-new_schema (schema_of k)) in
        let known = (get_or_create_schema-known D k (schema_of k) m schema e).0 (rw same names) in
        (
          ap (λ x. x.0) known ∙ ap ok same,
          subst (λ n. Agrees n.storage.schemas) (sym (ap (λ x. x.1) known)) h,
        )
  ]

  ensure_dir-ok :
      (dir : FilePath) (m : Machine D)
      → ((ensure_dir D dir m).0 ≡ ok tt) × ((ensure_dir D dir m).1.storage ≡ m.storage)
  unfolding ensure_dir
  ensure_dir-ok dir m = ground (arith, create_dir_all-ok dir m.world)

  -- A file is there, and the schemas are as they were.
  abbrev Opened : String → Machine D → Machine D → Type 0
  Opened k m n = (lookup k n.storage.writers ≢ none) × (n.storage.schemas ≡ m.storage.schemas)

  open_writer-ok :
      (k : String) (dir : FilePath) (schema : Schema) (m : Machine D)
      → ((open_writer D k dir schema m).0 ≡ ok tt) × Opened k m (open_writer D k dir schema m).1
  unfolding open_writer attach_writer add_writer
  open_writer-ok k dir schema m =
      let path = dir ++ file_name (D.timestamp_millis m.world) m.storage.file_set_id ∷ [] in
      let (file, created) = create_file-ok path m.world in
      let n₁ = (on_world D (D.create_file path) m).1 in
      let (writer, opened) = new_writer-ok file schema n₁.world in
      let n₂ = (on_world D (D.new_writer file schema) n₁).1 in
      let same : open_writer D k dir schema m ≡ add_writer D k writer n₂ =
        bind-of-ok (on_world D (D.create_file path)) (attach_writer D k schema) m created
        ∙ bind-of-ok (on_world D (D.new_writer file schema)) (add_writer D k) n₁ opened in
      subst (λ (r : Result (Unit {0}) × Machine D). (r.0 ≡ ok tt) × Opened k m r.1) (sym same)
        (
          refl,
          (λ absent. ground (arith, lookup-insert k k writer m.storage.writers, eq_iff k k), refl),
        )

  ensure_writer-ok :
      (k : String) (dir : FilePath) (schema : Schema) (m : Machine D)
      → ((ensure_writer D k dir schema m).0 ≡ ok tt) × Opened k m (ensure_writer D k dir schema m).1
  unfolding ensure_writer contains_key
  ensure_writer-ok k dir schema m = elim (Option-cases (lookup k m.storage.writers)) [
    | inl e ↦ rw (e, ensure_writer, contains_key) (open_writer-ok k dir schema m)
    | inr (writer, e) ↦ rw (e, ensure_writer, contains_key) (refl, ((λ absent. cc), refl))
  ]

  write_batch-ok :
      (k : String) (batch : D.Batch) (m : Machine D)
      → lookup k m.storage.writers ≢ none
      → ((write_batch D k batch m).0 ≡ ok tt)
        × ((write_batch D k batch m).1.storage.schemas ≡ m.storage.schemas)
  unfolding write_batch
  write_batch-ok k batch m there = elim (Option-cases (lookup k m.storage.writers)) [
    | inl e ↦ absurd (there e)
    | inr (writer, e) ↦ rw (e, write_batch) (write-ok batch writer m.world, refl)
  ]

  -- A write of such an event returns, and the schemas still agree with the event types.
  pub write_event-Agrees :
      (e : SinkEvent) (m : Machine D)
      → IsProper e
      → Agrees m.storage.schemas
      → ((write_event D e.event_type e.block_number e.tx_hash e.log_index e.columns m).0 ≡ ok tt)
        × Agrees
            (write_event D e.event_type e.block_number e.tx_hash e.log_index e.columns
              m).1.storage.schemas
  unfolding write_event
  write_event-Agrees e m (kind, named, shaped) h =
      let k = e.event_type in
      let names = map (λ ((name, _) : String × String). name) e.columns in
      let proper : names ≡ schema_of k = cc (shaped, named, schema_of-event_name kind) in
      let dir = m.storage.base_path ∷ k ∷ [] in
      let arrays = row_arrays k e.block_number e.tx_hash e.log_index e.columns in
      let (made, agrees) =
        subst
          (λ l.
            ((get_or_create_schema D k l m).0 ≡ ok (new_schema l))
            × Agrees (get_or_create_schema D k l m).1.storage.schemas)
          (sym proper) (get_or_create_schema-Agrees k m h) in
      let m₁ = (get_or_create_schema D k names m).1 in
      let (there, kept) = ensure_dir-ok dir m₁ in
      let m₂ = (ensure_dir D dir m₁).1 in
      let (opened, (has, schemas)) = ensure_writer-ok k dir (new_schema names) m₂ in
      let m₃ = (ensure_writer D k dir (new_schema names) m₂).1 in
      let (batch, fits) = new_batch-ok 1 (new_schema names) arrays (row_arrays-Fits e) in
      let (wrote, same) = write_batch-ok k batch m₃ has in
      let run : write_event D k e.block_number e.tx_hash e.log_index e.columns m
          ≡ write_batch D k batch m₃ =
        bind-of-ok (get_or_create_schema D k names) _ m made
        ∙ bind-of-ok (ensure_dir D dir) _ m₁ there
        ∙ bind-of-ok (ensure_writer D k dir (new_schema names)) _ m₂ opened
        ∙ bind-of-ok (lift (D.new_batch (new_schema names) arrays)) _ m₃ fits in
      (
        ap (λ x. x.0) run ∙ wrote,
        subst Agrees
            (sym (
              ap (λ x. x.1.storage.schemas) run
              ∙ same
              ∙ schemas
              ∙ ap (λ (x : ParquetStorage D). x.schemas) kept))
            agrees,
      )

  close_all-ok : (ws : Dict D.Writer) (w : D.World) → (close_all D ws w).0 ≡ ok tt
  unfolding close_all
  close_all-ok [] w = refl
  close_all-ok ((k, writer) ∷ ws) w =
      ap (λ x. x.0) (bind-of-ok (D.close writer) (λ _. close_all D ws) w (close-ok writer w))
      ∙ close_all-ok ws (D.close writer w).1

  pub close_writers-ok : (m : Machine D) → (close_writers D m).0 ≡ ok tt
  unfolding close_writers
  close_writers-ok m = close_all-ok m.storage.writers m.world

  pub rotate_writers-Agrees :
      (m : Machine D)
      → Agrees m.storage.schemas
      → ((rotate_writers D m).0 ≡ ok tt) × Agrees (rotate_writers D m).1.storage.schemas
  unfolding rotate_writers bump_file_set
  rotate_writers-Agrees m h = (
    ap (λ x. x.0) (bind-of-ok (close_writers D) (λ _. bump_file_set D) m (close_writers-ok m))
        ∙ refl,
    subst Agrees (sym (rotate_writers_state D m).1) h,
  )
