-- ===== src/Storage/Parquet/Validity.antt =====
-- The invariant of `ParquetStorage`: a writer's event type has a schema, and each schema is the
-- metadata columns followed by text columns.
use polymarket_indexer.Prelude.{
  ℕ, String, ◌≡◌, refl, ◌≢◌, none, some, List, [], ◌∷◌, arith, eq_iff, map, Option-cases, ◌++◌,
  str_eq, Bool-cases, inl, inr,
}
use polymarket_indexer.Prelude.Dict.{lookup, insert, lookup-insert}
use polymarket_indexer.Prelude.Outcome.{ok}
use polymarket_indexer.Prelude.Exec.{lift, after-bind, Keeps-bind}
use polymarket_indexer.Storage.Arrow.{FilePath, Schema, Disk}
use polymarket_indexer.Storage.Parquet.{
  ParquetStorage, Machine, new, new_schema, get_or_create_schema, close_writers, rotate_writers,
  on_world, ensure_dir, bump_file_set, open_writer, attach_writer, add_writer, file_name,
  ensure_writer, write_batch, write_event,
}

pub record IsValid (D : Disk) (s : ParquetStorage D) : Type 0 where
  pub covered : (k : String) → lookup k s.writers ≢ none → lookup k s.schemas ≢ none
  pub shaped :
      (k : String) (schema : Schema)
      → lookup k s.schemas ≡ some schema
      → (columns : List String) × (schema ≡ new_schema columns)

module _ (D : Disk) where
  -- A new sink is valid.
  pub new-IsValid : (base_path : String) → IsValid D (new D base_path)
  unfolding new lookup
  new-IsValid base_path = record { covered = λ k h. absurd (h refl); shaped = λ k schema h. cc }

  insert_schema-IsValid :
      (s : ParquetStorage D) (event_type : String) (columns : List String)
      → IsValid D s
      → IsValid D (record s { schemas = insert event_type (new_schema columns) s.schemas })
  insert_schema-IsValid s event_type columns v = record {
    covered = λ k h. ground (
      arith,
      v.covered k h,
      lookup-insert event_type k (new_schema columns) s.schemas,
      eq_iff event_type k,
    );
    shaped = λ k schema h. elim (Bool-cases (str_eq event_type k)) [
      | inl same ↦
          (columns, ground (arith, lookup-insert event_type k (new_schema columns) s.schemas))
      | inr differs ↦
          v.shaped k schema
            (ground (arith, lookup-insert event_type k (new_schema columns) s.schemas))
    ];
  }

  insert_writer-IsValid :
      (s : ParquetStorage D) (event_type : String) (writer : D.Writer)
      → lookup event_type s.schemas ≢ none
      → IsValid D s
      → IsValid D (record s { writers = insert event_type writer s.writers })
  insert_writer-IsValid s event_type writer known v = record {
    covered = λ k h. elim (Bool-cases (str_eq event_type k)) [
      | inl same ↦ rw (← (eq_iff event_type k).0 same) known
      | inr differs ↦ v.covered k (ground (arith, lookup-insert event_type k writer s.writers))
    ];
    shaped = v.shaped;
  }

  -- What holds between the lookup of the schema and the end of a write.
  record HasSchema (event_type : String) (m : Machine D) : Type 0 where
    valid : IsValid D m.storage
    known : lookup event_type m.storage.schemas ≢ none

  get_or_create_schema-IsValid :
      (event_type : String) (columns : List String) (m : Machine D)
      → IsValid D m.storage
      → IsValid D (get_or_create_schema D event_type columns m).1.storage
  unfolding get_or_create_schema
  get_or_create_schema-IsValid event_type columns m v =
      ground (arith, insert_schema-IsValid m.storage event_type columns v)

  get_or_create_schema-HasSchema :
      (event_type : String) (columns : List String) (m : Machine D)
      → IsValid D m.storage
      → (schema : Schema) → (get_or_create_schema D event_type columns m).0 ≡ ok schema
      → HasSchema event_type (get_or_create_schema D event_type columns m).1
  unfolding get_or_create_schema
  get_or_create_schema-HasSchema event_type columns m v schema h = ground (
    arith,
    insert_schema-IsValid m.storage event_type columns v,
    lookup-insert event_type event_type (new_schema columns) m.storage.schemas,
    eq_iff event_type event_type,
  )

  ensure_dir-HasSchema :
      (event_type : String) (dir : FilePath) (m : Machine D)
      → HasSchema event_type m
      → HasSchema event_type (ensure_dir D dir m).1
  unfolding ensure_dir
  ensure_dir-HasSchema event_type dir m h = ground arith

  attach_writer-HasSchema :
      (event_type : String) (schema : Schema) (file : D.File) (m : Machine D)
      → HasSchema event_type m
      → HasSchema event_type (attach_writer D event_type schema file m).1
  unfolding attach_writer add_writer
  attach_writer-HasSchema event_type schema file m h =
      after-bind (HasSchema event_type) (on_world D (D.new_writer file schema))
        (add_writer D event_type) m
        (λ writer _. record {
          valid = insert_writer-IsValid m.storage event_type writer h.known h.valid;
          known = h.known;
        })
        (λ e _. record { valid = h.valid; known = h.known })

  open_writer-HasSchema :
      (event_type : String) (dir : FilePath) (schema : Schema) (m : Machine D)
      → HasSchema event_type m
      → HasSchema event_type (open_writer D event_type dir schema m).1
  unfolding open_writer
  open_writer-HasSchema event_type dir schema m h =
      after-bind (HasSchema event_type)
        (on_world D (
          D.create_file (dir ++ file_name (D.timestamp_millis m.world) m.storage.file_set_id ∷ [])))
        (attach_writer D event_type schema) m
        (λ file _.
          attach_writer-HasSchema event_type schema file _
            (record { valid = h.valid; known = h.known }))
        (λ e _. record { valid = h.valid; known = h.known })

  ensure_writer-HasSchema :
      (event_type : String) (dir : FilePath) (schema : Schema) (m : Machine D)
      → HasSchema event_type m
      → HasSchema event_type (ensure_writer D event_type dir schema m).1
  unfolding ensure_writer
  ensure_writer-HasSchema event_type dir schema m h =
      ground (arith, open_writer-HasSchema event_type dir schema m h)

  write_batch-HasSchema :
      (event_type : String) (batch : D.Batch) (m : Machine D)
      → HasSchema event_type m
      → HasSchema event_type (write_batch D event_type batch m).1
  unfolding write_batch
  write_batch-HasSchema event_type batch m h =
      elim (Option-cases (lookup event_type m.storage.writers)) [
        | inl e ↦ ground arith
        | inr (writer, e) ↦ ground (
          arith,
          insert_writer-IsValid m.storage event_type (D.write batch (writer, m.world)).1.0 h.known
              h.valid,
        )
      ]

  -- A write keeps the sink valid, whether it returns or fails.
  pub write_event-IsValid :
      (event_type : String) (block_number : ℕ) (tx_hash : String) (log_index : ℕ)
      (columns : List (String × String)) (m : Machine D)
      → IsValid D m.storage
      → IsValid D (write_event D event_type block_number tx_hash log_index columns m).1.storage
  unfolding write_event
  write_event-IsValid event_type block_number tx_hash log_index columns m v =
      after-bind (λ n. IsValid D n.storage)
        (get_or_create_schema D event_type (map (λ (name, _). name) columns)) _ m
        (λ schema e.
          let dir = m.storage.base_path ∷ event_type ∷ [] in
          (Keeps-bind (HasSchema event_type) (ensure_dir D dir) _
            (ensure_dir-HasSchema event_type dir)
            (λ _.
              Keeps-bind (HasSchema event_type) (ensure_writer D event_type dir schema) _
                (ensure_writer-HasSchema event_type dir schema)
                (λ _.
                  Keeps-bind (HasSchema event_type) (lift (D.new_batch schema _)) _ (λ s h. h)
                    (write_batch-HasSchema event_type)))
            _ (get_or_create_schema-HasSchema event_type _ m v schema e)).valid)
        (λ _ _. get_or_create_schema-IsValid event_type _ m v)

  pub close_writers-IsValid :
      (m : Machine D) → IsValid D m.storage → IsValid D (close_writers D m).1.storage
  unfolding close_writers lookup
  close_writers-IsValid m v = record { covered = λ k h. absurd (h refl); shaped = v.shaped }

  pub rotate_writers-IsValid :
      (m : Machine D) → IsValid D m.storage → IsValid D (rotate_writers D m).1.storage
  unfolding rotate_writers bump_file_set
  rotate_writers-IsValid m v =
      after-bind (λ n. IsValid D n.storage) (close_writers D) (λ _. bump_file_set D) m
        (λ _ _.
          let c = close_writers-IsValid m v in record { covered = c.covered; shaped = c.shaped })
        (λ _ _. close_writers-IsValid m v)
