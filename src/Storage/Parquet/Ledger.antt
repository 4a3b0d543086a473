-- ===== src/Storage/Parquet/Ledger.antt =====
-- The abstract view of the Parquet sink: the batches in its files, complete or open. A run of calls
-- adds one batch for each event, and loses none.
pub mod Closing
use mathlib.Core.List.{Perm, append_assoc, append-nil, perm_middle}
use mathlib.Core.List.Perm
use mathlib.Core.Path.{subst}
use polymarket_indexer.Prelude.{
  false, String, ◌≡◌, refl, ap, sym, ◌∙◌, none, some, List, [], ◌∷◌, ◌++◌, arith, map, str_eq,
  Option-cases, inl, inr, Bool-cases,
}
use polymarket_indexer.Prelude.Dict.{Dict, lookup, insert, contains_key}
use polymarket_indexer.Prelude.Outcome.{ok}
use polymarket_indexer.Prelude.Exec.{lift, bind-eq-ok}
use polymarket_indexer.Storage.Arrow.{FilePath, Schema, Disk}
use polymarket_indexer.Storage.Calls.{SinkEvent}
use polymarket_indexer.Storage.Parquet.{
  Machine, get_or_create_schema, expected_schema_names, schema_names, on_world, ensure_dir,
  open_writer, attach_writer, add_writer, ensure_writer, write_batch, write_event, row_arrays,
  close_writers, file_name,
}
use polymarket_indexer.Storage.Parquet.Writing.{get_or_create_schema-eq-ok}
use polymarket_indexer.Storage.Parquet.Paths.{DiskLaws, IsClear}
use polymarket_indexer.Storage.Parquet.Paths.Keeping.{opened, write_batch-IsClear}
use polymarket_indexer.Storage.Parquet.Rotation.{close_writers-closes}

module _ (D : Disk) (L : DiskLaws D) where
  abbrev pub batches : D.Writer → List D.Batch
  batches = L.writing.batches

  abbrev pub all_batches : List D.Writer → List D.Batch
  all_batches [] = []
  all_batches (x ∷ xs) = batches x ++ all_batches xs

  -- The batches in the complete files.
  abbrev pub stored : D.World → List D.Batch
  stored w = all_batches (L.closing.closed w)

  abbrev pub open_batches : Dict D.Writer → List D.Batch
  open_batches [] = []
  open_batches ((_, x) ∷ ws) = batches x ++ open_batches ws

  abbrev pub contents : Machine D → List D.Batch
  contents m = stored m.world ++ open_batches m.storage.writers

  open_batches-insert_new :
      (k : String) (x : D.Writer) (ws : Dict D.Writer)
      → lookup k ws ≡ none
      → batches x ≡ []
      → open_batches (insert k x ws) ≡ open_batches ws
  unfolding lookup insert
  open_batches-insert_new k x [] fresh e = rw e refl
  open_batches-insert_new k x ((j, y) ∷ ws) fresh e = elim (Bool-cases (str_eq j k)) [
    | inl t ↦ ground arith
    | inr f ↦
        rw (f, insert) (ap (λ l. batches y ++ l) (open_batches-insert_new k x ws (ground arith) e))
  ]

  open_batches-insert_more :
      (k : String) (x y : D.Writer) (b : D.Batch) (ws : Dict D.Writer)
      → lookup k ws ≡ some x
      → batches y ≡ batches x ++ b ∷ []
      → Perm (open_batches (insert k y ws)) (b ∷ open_batches ws)
  unfolding lookup insert
  open_batches-insert_more k x y b [] found e = cc
  open_batches-insert_more k x y b ((j, z) ∷ ws) found e = elim (Bool-cases (str_eq j k)) [
    | inl t ↦
        let same : x ≡ z = ground arith in
        rw (t, insert, e, same, append_assoc (batches z) (b ∷ []) (open_batches ws))
          (perm_middle (batches z) (open_batches ws))
    | inr f ↦
        rw (f, insert)
          (Perm.trans
            (Perm.append_left (batches z) (open_batches-insert_more k x y b ws (ground arith) e))
            (perm_middle (batches z) (open_batches ws)))
  ]

  -- The complete files stay as they are, and the open ones hold the same batches.
  Same : Machine D → Machine D → Type 0
  Same m n =
      (L.closing.closed n.world ≡ L.closing.closed m.world)
      × (open_batches n.storage.writers ≡ open_batches m.storage.writers)

  get_or_create_schema-Same :
      (event_type : String) (columns : List String) (m : Machine D)
      → Same m (get_or_create_schema D event_type columns m).1
  unfolding Same get_or_create_schema
  get_or_create_schema-Same event_type columns m = ground arith

  ensure_dir-Same : (dir : FilePath) (m : Machine D) → Same m (ensure_dir D dir m).1
  unfolding Same ensure_dir
  ensure_dir-Same dir m = ground (arith, L.closed-create_dir_all dir m.world)

  attach_writer-Same :
      (event_type : String) (schema : Schema) (file : D.File) (m : Machine D)
      → lookup event_type m.storage.writers ≡ none
      → (attach_writer D event_type schema file m).0 ≡ ok tt
      → Same m (attach_writer D event_type schema file m).1
  unfolding Same attach_writer add_writer
  attach_writer-Same event_type schema file m fresh h =
      let (writer, made, _, same) =
        bind-eq-ok (on_world D (D.new_writer file schema)) (add_writer D event_type) m h in
      (
        ap (λ n. L.closing.closed n.world) same ∙ L.closed-new_writer file schema m.world,
        ap (λ n. open_batches n.storage.writers) same
            ∙ open_batches-insert_new event_type writer m.storage.writers fresh
                (L.writing.batches-new_writer file schema m.world writer made),
      )

  open_writer-Same :
      (event_type : String) (dir : FilePath) (schema : Schema) (m : Machine D)
      → lookup event_type m.storage.writers ≡ none
      → D.exists (dir ++ file_name (D.timestamp_millis m.world) m.storage.file_set_id ∷ []) m.world
        ≡ false
      → (open_writer D event_type dir schema m).0 ≡ ok tt
      → Same m (open_writer D event_type dir schema m).1
  unfolding Same open_writer
  open_writer-Same event_type dir schema m fresh free h =
      let path = dir ++ file_name (D.timestamp_millis m.world) m.storage.file_set_id ∷ [] in
      let (file, _, attached, same) =
        bind-eq-ok (on_world D (D.create_file path)) (attach_writer D event_type schema) m h in
      let n = (on_world D (D.create_file path) m).1 in
      let (c, o) = attach_writer-Same event_type schema file n fresh attached in
      (
        ap (λ n. L.closing.closed n.world) same ∙ c ∙ L.closed-create_file path m.world free,
        ap (λ n. open_batches n.storage.writers) same ∙ o,
      )

  ensure_writer-Same :
      (event_type : String) (dir : FilePath) (schema : Schema) (m : Machine D)
      → (lookup event_type m.storage.writers ≡ none
          → D.exists
              (dir ++ file_name (D.timestamp_millis m.world) m.storage.file_set_id ∷ [])
              m.world
            ≡ false)
      → (ensure_writer D event_type dir schema m).0 ≡ ok tt
      → Same m (ensure_writer D event_type dir schema m).1
  unfolding Same ensure_writer contains_key
  ensure_writer-Same event_type dir schema m free h =
      elim (Option-cases (lookup event_type m.storage.writers)) [
        | inl fresh ↦ ground (arith, open_writer-Same event_type dir schema m fresh (free fresh))
        | inr (_, there) ↦ ground arith
      ]

  contents-write_batch :
      (event_type : String) (b : D.Batch) (m : Machine D)
      → (write_batch D event_type b m).0 ≡ ok tt
      → Perm (contents (write_batch D event_type b m).1) (b ∷ contents m)
  unfolding write_batch
  contents-write_batch event_type b m h =
      elim (Option-cases (lookup event_type m.storage.writers)) [
        | inl e ↦ cc
        | inr (writer, e) ↦
            let wrote : (D.write b (writer, m.world)).0 ≡ ok tt = ground arith in
            rw (e, write_batch, L.closed-write b writer m.world)
              (Perm.trans
                (Perm.append_left (stored m.world) (
                  open_batches-insert_more event_type writer (D.write b (writer, m.world)).1.0 b
                    m.storage.writers e (L.writing.batches-write b writer m.world wrote)))
                (perm_middle (stored m.world) (open_batches m.storage.writers)))
      ]

  -- The batch is made of the event, under a schema with the names of its columns.
  pub record Holds (e : SinkEvent) (b : D.Batch) : Type 0 where
    pub schema : Schema
    pub named : schema_names schema ≡ expected_schema_names (map (λ (name, _). name) e.columns)
    pub made :
        D.new_batch schema (row_arrays e.event_type e.block_number e.tx_hash e.log_index e.columns)
        ≡ ok b

  contents-Same : (m n : Machine D) → Same m n → contents n ≡ contents m
  unfolding Same
  contents-Same m n (c, o) = λ i. all_batches (c i) ++ o i

  pub contents-write_event :
      (e : SinkEvent) (m : Machine D)
      → IsClear D m
      → (write_event D e.event_type e.block_number e.tx_hash e.log_index e.columns m).0 ≡ ok tt
      → (b : D.Batch) × Holds e b
        × Perm
            (contents
              (write_event D e.event_type e.block_number e.tx_hash e.log_index e.columns m).1)
            (b ∷ contents m)
        × IsClear D (write_event D e.event_type e.block_number e.tx_hash e.log_index e.columns m).1
  unfolding write_event
  contents-write_event e m clear h =
      let names = map (λ ((name, _) : String × String). name) e.columns in
      let dir = m.storage.base_path ∷ e.event_type ∷ [] in
      let (schema, made, h₁, s₁) = bind-eq-ok (get_or_create_schema D e.event_type names) _ m h in
      let m₁ = (get_or_create_schema D e.event_type names m).1 in
      let (_, there, h₂, s₂) = bind-eq-ok (ensure_dir D dir) _ m₁ h₁ in
      let m₂ = (ensure_dir D dir m₁).1 in
      let (_, got, h₃, s₃) = bind-eq-ok (ensure_writer D e.event_type dir schema) _ m₂ h₂ in
      let m₃ = (ensure_writer D e.event_type dir schema m₂).1 in
      let (b, fits, h₄, s₄) = bind-eq-ok (lift (D.new_batch schema _)) _ m₃ h₃ in
      let open_at = opened D L e.event_type names schema m clear in
      let (named, _) = get_or_create_schema-eq-ok D e.event_type names m schema made in
      let before : contents m₃ ≡ contents m =
        contents-Same m₂ m₃ (ensure_writer-Same e.event_type dir schema m₂ open_at.free got)
        ∙ contents-Same m₁ m₂ (ensure_dir-Same dir m₁)
        ∙ contents-Same m m₁ (get_or_create_schema-Same e.event_type names m) in
      (
        b,
        record { schema = schema; named = named; made = fits },
        rw (s₁ ∙ s₂ ∙ s₃ ∙ s₄, ← before) (contents-write_batch e.event_type b m₃ h₄),
        subst (IsClear D) (sym (s₁ ∙ s₂ ∙ s₃ ∙ s₄))
            (write_batch-IsClear D L e.event_type b m₃ (open_at.clear got)),
      )
