-- ===== src/Storage/Parquet/Names.antt =====
-- The names of the files of the Parquet sink.
use polymarket_indexer.Prelude.{ℕ, ◌≡◌, refl}
use polymarket_indexer.Prelude.Decimal.Reading.{decimal-injective}
use polymarket_indexer.Storage.Parquet.{file_name}

-- Two files of one event type have one name only if they were opened in the same millisecond, in the
-- same file set.
pub file_name-injective :
    (millis id millis' id' : ℕ)
    → file_name millis id ≡ file_name millis' id'
    → (millis ≡ millis') × (id ≡ id')
unfolding file_name
file_name-injective millis id millis' id' = decimal-injective "_" "." "set" "parquet" refl refl
