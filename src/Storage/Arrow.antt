-- ===== src/Storage/Arrow.antt =====
-- What the sinks use of `arrow`, `parquet`, the file system and the clock.
use polymarket_indexer.Prelude.{ℕ, String, List, Bool}
use polymarket_indexer.Prelude.Outcome.{Result}
use polymarket_indexer.Prelude.Exec.{Exec}

pub data DataType : Type 0 where
  utf8 uint64 : DataType

pub record Field : Type 0 where
  pub name : String
  pub data_type : DataType
  pub nullable : Bool

abbrev pub Schema : Type 0
Schema = List Field

-- `StringArray::from` and `UInt64Array::from` of a vector.
pub data Column : Type 0 where
  string_array : List String → Column
  uint64_array : List ℕ → Column

-- The components of a path, outermost first: `join` adds one.
abbrev pub FilePath : Type 0
FilePath = List String

-- The file system, the clock and the Parquet writer. A call may change the world also where it
-- fails.
pub record Disk : Type 1 where
  pub World : Type 0
  pub File : Type 0
  pub Writer : Type 0
  pub Batch : Type 0
  pub timestamp_millis : World → ℕ
  pub exists : FilePath → World → Bool
  pub create_dir_all : FilePath → Exec World (Unit {0})
  pub create_file : FilePath → Exec World File
  pub new_writer : File → Schema → Exec World Writer
  pub new_batch : Schema → List Column → Result Batch
  pub write : Batch → Exec (Writer × World) (Unit {0})
  pub close : Writer → Exec World (Unit {0})
