-- ===== src/Storage/Parquet/Schemas.antt =====
-- Schemas are made once for each event type, and compared by the names of their fields.
use polymarket_indexer.Prelude.{
  String, ◌<>◌, ◌≡◌, refl, ap, ◌≢◌, none, some, List, [], ◌∷◌, map, arith, strings_eq_iff, eq_iff,
}
use polymarket_indexer.Prelude.Dict.{lookup, lookup-insert}
use polymarket_indexer.Prelude.Outcome.{ok, err}
use polymarket_indexer.Storage.Arrow.{utf8, Field, Schema, Disk}
use polymarket_indexer.Storage.Parquet.{
  Machine, required, expected_schema_names, schema_names, new_schema, get_or_create_schema,
}

map-required :
    (columns : List String)
    → map (λ (f : Field). f.name) (map (λ name. required name utf8) columns) ≡ columns
unfolding required
map-required [] = refl
map-required (c ∷ cs) = ap (λ l. c ∷ l) (map-required cs)

-- A new schema has the names that are expected of it.
pub schema_names-new_schema :
    (columns : List String) → schema_names (new_schema columns) ≡ expected_schema_names columns
unfolding schema_names new_schema expected_schema_names
schema_names-new_schema columns = simp map-required

module _ (D : Disk) (event_type : String) (columns : List String) (m : Machine D) where
  -- With a schema in place, the columns are accepted exactly when they have its names, and the
  -- object is left alone either way.
  pub get_or_create_schema-known :
      (schema : Schema)
      → lookup event_type m.storage.schemas ≡ some schema
      → (expected_schema_names columns ≡ schema_names schema
          → get_or_create_schema D event_type columns m ≡ (ok schema, m))
        × (expected_schema_names columns ≢ schema_names schema
            → get_or_create_schema D event_type columns m
              ≡ (err ("schema mismatch for event type '" <> event_type <> "'"), m))
  unfolding get_or_create_schema
  get_or_create_schema-known schema h = (
    λ e. ground (arith, strings_eq_iff (expected_schema_names columns) (schema_names schema)),
    λ n. ground (arith, strings_eq_iff (expected_schema_names columns) (schema_names schema)),
  )

  -- Without one, the schema of the columns is made and kept.
  pub get_or_create_schema-new :
      lookup event_type m.storage.schemas ≡ none
      → let r = get_or_create_schema D event_type columns m in
        (r.0 ≡ ok (new_schema columns))
        × (lookup event_type r.1.storage.schemas ≡ some (new_schema columns))
        × (r.1.storage.writers ≡ m.storage.writers)
        × (r.1.world ≡ m.world)
  unfolding get_or_create_schema
  get_or_create_schema-new h = ground (
    arith,
    lookup-insert event_type event_type (new_schema columns) m.storage.schemas,
    eq_iff event_type event_type,
  )
