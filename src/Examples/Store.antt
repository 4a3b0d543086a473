-- ===== src/Examples/Store.antt =====
-- The Parquet sink on the disk of the fixtures.
use polymarket_indexer.Prelude.{String, ◌≡◌, refl, List, [], ◌∷◌, ◌++◌, map}
use polymarket_indexer.Prelude.Dict.{insert, lookup, contains_key}
use polymarket_indexer.Prelude.Outcome.{ok}
use polymarket_indexer.Storage.Arrow.{Schema}
use polymarket_indexer.Storage.Parquet.{
  Machine, new, schema_names, expected_schema_names, row_arrays, write_event, close_writers,
  get_or_create_schema, ensure_dir, ensure_writer, open_writer, attach_writer, add_writer,
  write_batch,
}
use polymarket_indexer.Storage.Parquet.Validity.{IsValid, new-IsValid, write_event-IsValid}
use polymarket_indexer.Storage.Parquet.Writing.{pending, write_event-appends}
use polymarket_indexer.Storage.Parquet.Rotation.{ClosesUpTo, close_writers-closes}
use polymarket_indexer.Examples.Fixtures.{Batch, Writer, disk, writer_laws, close_laws}

abbrev machine : Machine disk
machine = record { storage = new disk "data"; world = [] }

abbrev columns : List (String × String)
columns = ("order_hash", "70") ∷ []

-- After one write.
abbrev written : Machine disk
written = (write_event disk "OrderCancelled" 3 "5" 0 columns machine).1

write_event-IsValid_example :
    IsValid disk (write_event disk "OrderCancelled" 3 "5" 0 columns machine).1.storage
write_event-IsValid_example =
    write_event-IsValid disk "OrderCancelled" 3 "5" 0 columns machine (new-IsValid disk "data")

written-ok : (write_event disk "OrderCancelled" 3 "5" 0 columns machine).0 ≡ ok tt
unfolding write_event get_or_create_schema lookup new ensure_dir ensure_writer contains_key
    open_writer attach_writer add_writer write_batch insert
written-ok = refl

write_event-appends_example :
    (schema : Schema) × (b : Batch) × (schema_names schema
      ≡ expected_schema_names ("order_hash" ∷ []))
    × (disk.new_batch schema (row_arrays "OrderCancelled" 3 "5" 0 columns) ≡ ok b)
    × (pending disk writer_laws written "OrderCancelled"
        ≡ pending disk writer_laws machine "OrderCancelled" ++ b ∷ [])
write_event-appends_example =
    write_event-appends disk writer_laws "OrderCancelled" 3 "5" 0 columns machine "OrderCancelled"
      written-ok

close_writers-closes_example :
    (complete : List Writer) × (lost : List Writer) × (map (λ (_, x). x) written.storage.writers
      ≡ complete ++ lost)
    × ((close_writers disk written).1.world ≡ written.world ++ complete)
    × ((close_writers disk written).1.storage.writers ≡ [])
    × ClosesUpTo disk complete lost
        (close_writers disk written).0
        written.world
        (close_writers disk written).1.world
close_writers-closes_example = close_writers-closes disk close_laws written
