-- ===== src/Storage/Parquet/Paths/Keeping.antt =====
-- The writes of the Parquet sink keep the names to come free.
use mathlib.Core.Path.{subst}
use mathlib.Core.Logic.{◌≢◌}
use polymarket_indexer.Prelude.{
  ℕ, ◌<◌, String, ◌≡◌, ◌⊎◌, inl, inr, refl, sym, ◌∙◌, true, false, none, List, [], ◌∷◌, ◌++◌, arith,
  eq_iff, Option-cases, Bool-cases,
}
use polymarket_indexer.Prelude.Dict.{Dict, lookup, insert, contains_key, lookup-insert}
use polymarket_indexer.Prelude.Outcome.{ok}
use polymarket_indexer.Prelude.Exec.{bind-eq-ok}
use polymarket_indexer.Storage.Arrow.{Schema, Disk}
use polymarket_indexer.Storage.Parquet.{
  Machine, get_or_create_schema, on_world, ensure_dir, open_writer, attach_writer, add_writer,
  ensure_writer, write_batch, file_name,
}
use polymarket_indexer.Storage.Parquet.Paths.Settings.{get_or_create_schema-Stays, ensure_dir-Stays}
use polymarket_indexer.Storage.Parquet.Paths.{
  DiskLaws, IsQuiet, IsClear, IsClearAt, IsClearAt-later, path_of, path_of-injective,
}

module _ (D : Disk) (L : DiskLaws D) where
  -- What `IsClear` reads of a state.
  abbrev View : Type 0
  View = String × Dict D.Writer × ℕ × D.World

  abbrev view : Machine D → View
  view m = (m.storage.base_path, m.storage.writers, m.storage.file_set_id, m.world)

  IsClear-view : (m n : Machine D) → view n ≡ view m → IsClear D m → IsClear D n
  IsClear-view m n same = subst (λ (v : View). IsClearAt D v.0 v.1 v.2 v.3) (sym same)

  view-get_or_create_schema :
      (event_type : String) (columns : List String) (m : Machine D)
      → view (get_or_create_schema D event_type columns m).1 ≡ view m
  unfolding get_or_create_schema
  view-get_or_create_schema event_type columns m = ground arith

  ensure_dir-IsClear :
      (base event_type : String) (m : Machine D)
      → IsClear D m
      → IsClear D (ensure_dir D (base ∷ event_type ∷ []) m).1
  unfolding ensure_dir
  ensure_dir-IsClear base event_type m clear =
      let dir = base ∷ event_type ∷ [] in
      elim (Bool-cases (D.exists dir m.world)) [
        | inl e ↦ rw (e, ensure_dir) clear
        | inr e ↦
            rw (e, ensure_dir)
              (IsClearAt-later D m.storage.base_path m.storage.writers m.storage.writers
                m.storage.file_set_id m.world (D.create_dir_all dir m.world).1 (λ et h. h)
                (L.later-create_dir_all dir m.world)
                (λ et millis id there.
                  elim (L.exists-create_dir_all dir (path_of m.storage.base_path et millis id)
                    m.world there) [
                      | inl h ↦ h
                      | inr h ↦ let absurd : ⊥ = omega arith in elim absurd [ ]
                    ])
                clear)
      ]

  -- A quiet call, after which no event type has lost its open file.
  IsQuiet-IsClearAt :
      (base : String) (writers writers' : Dict D.Writer) (set : ℕ) (w w' : D.World)
      → ((et : String) → lookup et writers' ≡ none → lookup et writers ≡ none)
      → IsQuiet D w w'
      → IsClearAt D base writers set w
      → IsClearAt D base writers' set w'
  IsQuiet-IsClearAt base writers writers' set w w' fewer quiet =
      IsClearAt-later D base writers writers' set w w' fewer quiet.1
        (λ et millis id there. sym (quiet.0 (path_of base et millis id)) ∙ there)

  insert-fewer :
      (k : String) (x : D.Writer) (writers : Dict D.Writer) (et : String)
      → lookup et (insert k x writers) ≡ none
      → (lookup et writers ≡ none) × (et ≢ k)
  insert-fewer k x writers et h = ground (arith, lookup-insert k et x writers, eq_iff k et)

  pub write_batch-IsClear :
      (event_type : String) (b : D.Batch) (m : Machine D)
      → IsClear D m
      → IsClear D (write_batch D event_type b m).1
  unfolding write_batch
  write_batch-IsClear event_type b m clear =
      elim (Option-cases (lookup event_type m.storage.writers)) [
        | inl e ↦ rw (e, write_batch) clear
        | inr (writer, e) ↦
            rw (e, write_batch)
              (IsQuiet-IsClearAt m.storage.base_path m.storage.writers
                (insert event_type (D.write b (writer, m.world)).1.0 m.storage.writers)
                m.storage.file_set_id m.world (D.write b (writer, m.world)).1.1
                (λ et h.
                  (insert-fewer event_type (D.write b (writer, m.world)).1.0 m.storage.writers et
                    h).0)
                (L.write-IsQuiet b writer m.world) clear)
      ]

  -- The path that a file is created under is free, and afterwards the names to come are still free.
  create_file-IsClear :
      (event_type : String) (x : D.Writer) (base : String) (writers : Dict D.Writer) (set : ℕ)
      → (w : D.World) → IsClearAt D base writers set w
      → lookup event_type writers ≡ none
      → let path = path_of base event_type (D.timestamp_millis w) set in
        (D.exists path w ≡ false)
        × IsClearAt D base (insert event_type x writers) set (D.create_file path w).1
  create_file-IsClear event_type x base writers set w clear fresh =
      let now = D.timestamp_millis w in
      let path = path_of base event_type now set in
      let w' = (D.create_file path w).1 in
      (
        clear event_type now set (omega arith) (omega arith) (inl fresh),
        λ et millis id time sets free.
            let later = L.later-create_file path w in
            let free_before : (lookup et writers ≡ none) ⊎ (set < id) = elim free [
              | inl h ↦ inl (insert-fewer event_type x writers et h).0
              | inr lt ↦ inr lt
            ] in
            let before : D.exists (path_of base et millis id) w ≡ false =
              clear et millis id (omega arith) sets free_before in
            elim (Bool-cases (D.exists (path_of base et millis id) w')) [
              | inr e ↦ e
              | inl e ↦ elim (L.exists-create_file path (path_of base et millis id) w e) [
                | inl there ↦ cc
                | inr same ↦
                    let (ets, ids) = path_of-injective base et event_type millis id now set same in
                    elim free [
                      | inl h ↦ elim ((insert-fewer event_type x writers et h).1 ets) [ ]
                      | inr lt ↦ let absurd : ⊥ = omega arith in elim absurd [ ]
                    ]
              ]
            ],
      )

  open_writer-IsClear :
      (event_type : String) (schema : Schema) (m : Machine D)
      → IsClear D m
      → lookup event_type m.storage.writers ≡ none
      → (open_writer D event_type (m.storage.base_path ∷ event_type ∷ []) schema m).0 ≡ ok tt
      → IsClear D (open_writer D event_type (m.storage.base_path ∷ event_type ∷ []) schema m).1
  unfolding open_writer attach_writer add_writer
  open_writer-IsClear event_type schema m clear fresh h =
      let path =
        path_of m.storage.base_path event_type (D.timestamp_millis m.world) m.storage.file_set_id in
      let (file, _, attached, s₁) =
        bind-eq-ok (on_world D (D.create_file path)) (attach_writer D event_type schema) m h in
      let n = (on_world D (D.create_file path) m).1 in
      let (writer, _, _, s₂) =
        bind-eq-ok (on_world D (D.new_writer file schema)) (add_writer D event_type) n attached in
      let writers = insert event_type writer m.storage.writers in
      let (_, created) =
        create_file-IsClear event_type writer m.storage.base_path m.storage.writers
          m.storage.file_set_id m.world clear fresh in
      subst (IsClear D) (sym (s₁ ∙ s₂)) (
        IsQuiet-IsClearAt m.storage.base_path writers writers m.storage.file_set_id n.world
          (D.new_writer file schema n.world).1 (λ et h. h)
          (L.new_writer-IsQuiet file schema n.world) created)

  ensure_writer-IsClear :
      (event_type : String) (schema : Schema) (m : Machine D)
      → IsClear D m
      → (ensure_writer D event_type (m.storage.base_path ∷ event_type ∷ []) schema m).0 ≡ ok tt
      → IsClear D (ensure_writer D event_type (m.storage.base_path ∷ event_type ∷ []) schema m).1
  unfolding ensure_writer contains_key
  ensure_writer-IsClear event_type schema m clear =
      elim (Option-cases (lookup event_type m.storage.writers)) [
        | inl fresh ↦
            let absent : contains_key event_type m.storage.writers ≡ false = ground arith in
            rw (absent, ensure_writer) (open_writer-IsClear event_type schema m clear fresh)
        | inr (_, there) ↦
            let present : contains_key event_type m.storage.writers ≡ true = ground arith in
            rw (present, ensure_writer) (λ h. clear)
      ]

  -- The state in which a write looks for its file, and the one in which it has it.
  pub record IsOpened (event_type : String) (schema : Schema) (m n : Machine D) : Type 0 where
    pub free :
        lookup event_type n.storage.writers ≡ none
        → D.exists
            ((m.storage.base_path ∷ event_type ∷ [])
              ++ file_name (D.timestamp_millis n.world) n.storage.file_set_id ∷ [])
            n.world
          ≡ false
    pub clear :
        let dir = m.storage.base_path ∷ event_type ∷ [] in
        (ensure_writer D event_type dir schema n).0 ≡ ok tt
        → IsClear D (ensure_writer D event_type dir schema n).1

  pub opened :
      (event_type : String) (columns : List String) (schema : Schema) (m : Machine D)
      → IsClear D m
      → IsOpened event_type schema m
          (ensure_dir D
            (m.storage.base_path ∷ event_type ∷ [])
            (get_or_create_schema D event_type columns m).1).1
  opened event_type columns schema m clear =
      let m₁ = (get_or_create_schema D event_type columns m).1 in
      let dir = m.storage.base_path ∷ event_type ∷ [] in
      let n = (ensure_dir D dir m₁).1 in
      let clear₁ = IsClear-view m m₁ (view-get_or_create_schema event_type columns m) clear in
      let clear₂ = ensure_dir-IsClear m.storage.base_path event_type m₁ clear₁ in
      let stays =
        get_or_create_schema-Stays D m.storage.base_path m.storage.file_set_id event_type columns m
          (refl, refl) in
      let base : n.storage.base_path ≡ m.storage.base_path =
        (ensure_dir-Stays D m.storage.base_path m.storage.file_set_id dir m₁ stays).0 in
      record {
        free = λ fresh.
            subst
              (λ b.
                D.exists (path_of b event_type (D.timestamp_millis n.world) n.storage.file_set_id)
                  n.world
                ≡ false)
              base
              (clear₂ event_type (D.timestamp_millis n.world) n.storage.file_set_id (omega arith)
                (omega arith) (inl fresh));
        clear =
            subst
              (λ b.
                (ensure_writer D event_type (b ∷ event_type ∷ []) schema n).0 ≡ ok tt
                → IsClear D (ensure_writer D event_type (b ∷ event_type ∷ []) schema n).1)
              base (ensure_writer-IsClear event_type schema n clear₂);
      }
