-- ===== src/Storage/Parquet/Paths.antt =====
-- The paths of the files that the Parquet sink creates: none is there already, so that no file is
-- truncated by `File::create`.
pub mod Settings
pub mod Keeping
pub mod Rotating
use mathlib.Core.Path.{subst}
use mathlib.Core.Logic.{◌≢◌}
use polymarket_indexer.Prelude.{
  ℕ, ◌+◌, ◌-◌, ◌≤◌, ◌<◌, String, ◌≡◌, ◌⊎◌, inl, inr, refl, ap, sym, ◌∙◌, Bool, true, false, Option,
  none, some, List, [], ◌∷◌, ◌++◌, arith, eq_iff, str_eq, length, Option-cases, Bool-cases,
  if◌then◌else◌, u64_mod, map,
}
use polymarket_indexer.Prelude.Dict.{Dict, lookup, insert, contains_key, lookup-insert}
use polymarket_indexer.Prelude.Outcome.{ok, err, Result-cases}
use polymarket_indexer.Prelude.Exec.{Exec, lift, bind-eq-ok}
use polymarket_indexer.Storage.Arrow.{FilePath, Schema, Disk}
use polymarket_indexer.Storage.Calls.{SinkEvent}
use polymarket_indexer.Storage.Parquet.{
  Machine, get_or_create_schema, on_world, ensure_dir, open_writer, attach_writer, add_writer,
  ensure_writer, write_batch, write_event, row_arrays, close_all, close_writers, rotate_writers,
  bump_file_set, file_name,
}
use polymarket_indexer.Storage.Parquet.Names.{file_name-injective}
use polymarket_indexer.Storage.Parquet.Writing.{WriterLaws}
use polymarket_indexer.Storage.Parquet.Rotation.{CloseLaws}

-- No path has come into being, and the clock was not set back.
abbrev pub IsQuiet : (D : Disk) → D.World → D.World → Type 0
IsQuiet D w w' =
    ((p : FilePath) → D.exists p w' ≡ D.exists p w) × (D.timestamp_millis w ≤ D.timestamp_millis w')

-- What the program relies on of the disk: `WriterLaws` and `CloseLaws`; that a file which is created
-- under a path that is free leaves the complete files alone, as do all calls but `close`; which paths
-- come into being; and that the clock is not set back.
pub record DiskLaws (D : Disk) : Type 0 where
  pub writing : WriterLaws D
  pub closing : CloseLaws D
  pub closed-create_dir_all :
      (dir : FilePath) (w : D.World) → closing.closed (D.create_dir_all dir w).1 ≡ closing.closed w
  pub closed-create_file :
      (path : FilePath) (w : D.World)
      → D.exists path w ≡ false
      → closing.closed (D.create_file path w).1 ≡ closing.closed w
  pub closed-new_writer :
      (file : D.File) (schema : Schema) (w : D.World)
      → closing.closed (D.new_writer file schema w).1 ≡ closing.closed w
  pub closed-write :
      (b : D.Batch) (writer : D.Writer) (w : D.World)
      → closing.closed (D.write b (writer, w)).1.1 ≡ closing.closed w
  pub exists-create_dir_all :
      (dir p : FilePath) (w : D.World)
      → D.exists p (D.create_dir_all dir w).1 ≡ true
      → (D.exists p w ≡ true) ⊎ (length p ≤ length dir)
  pub later-create_dir_all :
      (dir : FilePath) (w : D.World)
      → D.timestamp_millis w ≤ D.timestamp_millis (D.create_dir_all dir w).1
  pub exists-create_file :
      (path p : FilePath) (w : D.World)
      → D.exists p (D.create_file path w).1 ≡ true
      → (D.exists p w ≡ true) ⊎ (p ≡ path)
  pub later-create_file :
      (path : FilePath) (w : D.World)
      → D.timestamp_millis w ≤ D.timestamp_millis (D.create_file path w).1
  pub new_writer-IsQuiet :
      (file : D.File) (schema : Schema) (w : D.World) → IsQuiet D w (D.new_writer file schema w).1
  pub write-IsQuiet :
      (b : D.Batch) (writer : D.Writer) (w : D.World) → IsQuiet D w (D.write b (writer, w)).1.1
  pub close-IsQuiet : (writer : D.Writer) (w : D.World) → IsQuiet D w (D.close writer w).1

-- The path of a file of the event type `et`.
abbrev pub path_of : String → String → ℕ → ℕ → FilePath
path_of base et millis id = (base ∷ et ∷ []) ++ file_name millis id ∷ []

pub path_of-injective :
    (base et et' : String) (millis id millis' id' : ℕ)
    → path_of base et millis id ≡ path_of base et' millis' id'
    → (et ≡ et') × (id ≡ id')
path_of-injective base et et' millis id millis' id' h =
    let names : file_name millis id ≡ file_name millis' id' = cc in
    (cc, (file_name-injective millis id millis' id' names).1)

module _ (D : Disk) where
  -- No file has a name that is yet to be given: one of a time from now on, in a file set to come, or
  -- in this one for an event type without an open file.
  abbrev pub IsClearAt : String → Dict D.Writer → ℕ → D.World → Type 0
  IsClearAt base writers set w =
      (et : String) (millis id : ℕ)
      → D.timestamp_millis w ≤ millis
      → set ≤ id
      → (lookup et writers ≡ none) ⊎ (set < id)
      → D.exists (path_of base et millis id) w ≡ false

  abbrev pub IsClear : Machine D → Type 0
  IsClear m = IsClearAt m.storage.base_path m.storage.writers m.storage.file_set_id m.world

  -- Fewer files are yet to be opened, later, and no path of this shape has come into being.
  pub IsClearAt-later :
      (base : String) (writers writers' : Dict D.Writer) (set : ℕ) (w w' : D.World)
      → ((et : String) → lookup et writers' ≡ none → lookup et writers ≡ none)
      → D.timestamp_millis w ≤ D.timestamp_millis w'
      → ((et : String) (millis id : ℕ)
          → D.exists (path_of base et millis id) w' ≡ true
          → D.exists (path_of base et millis id) w ≡ true)
      → IsClearAt base writers set w
      → IsClearAt base writers' set w'
  IsClearAt-later base writers writers' set w w' fewer later old clear et millis id time sets free =
      let before : D.exists (path_of base et millis id) w ≡ false =
        clear et millis id (omega arith) sets
          (elim free [ inl e ↦ inl (fewer et e) | inr lt ↦ inr lt ]) in
      elim (Bool-cases (D.exists (path_of base et millis id) w')) [
        | inr e ↦ e
        | inl e ↦ let there = old et millis id e in cc
      ]
