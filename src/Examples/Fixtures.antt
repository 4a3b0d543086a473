-- ===== src/Examples/Fixtures.antt =====
-- A codec, a disk and a sink, and logs for them.
use polymarket_indexer.Prelude.{
  ℕ, refl, ◌≡◌, sym, ap, ◌∙◌, ◌==◌, if◌then◌else◌, List, [], ◌∷◌, ◌++◌, some, none, false,
}
use polymarket_indexer.Prelude.Decimal.{decimal}
use polymarket_indexer.Prelude.Outcome.{Result, ok, err}
use polymarket_indexer.Contracts.{
  EventKind, condition_preparation, position_split, positions_merge, payout_redemption,
  order_filled, orders_matched, order_cancelled, market_prepared, question_prepared,
  positions_converted, EventOf,
}
use polymarket_indexer.Decode.{
  Log, DecodedEvent, FieldValue, b256, Json, string, other, Codec, decode_log, decode_as, route,
  topic0, to_columns, value_to_string, fields, event_name,
}
use polymarket_indexer.Decode.Dispatch.{HasDistinctHashes}
use polymarket_indexer.Storage.Arrow.{Disk, Column, FilePath}
use polymarket_indexer.Storage.Sink.{EventSink}
use polymarket_indexer.Storage.Parquet.Writing.{WriterLaws}
use polymarket_indexer.Storage.Parquet.Rotation.{CloseLaws}

abbrev pub hash_of : EventKind → ℕ
hash_of condition_preparation = 1
hash_of position_split = 2
hash_of positions_merge = 3
hash_of payout_redemption = 4
hash_of order_filled = 5
hash_of orders_matched = 6
hash_of order_cancelled = 7
hash_of market_prepared = 8
hash_of question_prepared = 9
hash_of positions_converted = 10

-- Only two kinds of event have valid data.
abbrev pub decoded_as : (k : EventKind) → Log → Result (EventOf k)
decoded_as order_cancelled log =
    ok (record { order_hash = elim log.block_number [ none ↦ 0 | some n ↦ n ] })
decoded_as orders_matched log = ok (record { taker_order_hash = 61; maker_order_hash = 62 })
decoded_as _ log = err "bad data"

abbrev pub json_of : FieldValue → Result (Json (Unit {0}))
json_of (b256 n) = ok (string (decimal n))
json_of _ = ok (other tt)

abbrev pub codec : Codec
codec = record {
  Other = Unit {0};
  signature_hash = hash_of;
  log_decode = decoded_as;
  to_value = json_of;
  to_text = λ _. "[]";
  hash_text = decimal;
}

abbrev pub log_at : ℕ → ℕ → ℕ → Log
log_at topic block index = record {
  address = 1;
  topics = topic ∷ [];
  payload = [];
  block_number = some block;
  transaction_hash = some 5;
  log_index = some index;
}

abbrev pub unplaced : Log
unplaced = record {
  address = 1;
  topics = 7 ∷ [];
  payload = [];
  block_number = some 3;
  transaction_hash = none;
  log_index = some 0;
}

abbrev pub cancelled : ℕ → DecodedEvent
cancelled block = record {
  event_type = "OrderCancelled";
  columns = ("order_hash", decimal block) ∷ [];
}

pub decode_log-cancelled :
    (block index : ℕ) → decode_log codec (log_at 7 block index) ≡ ok (some (cancelled block))
unfolding decode_log decode_as route topic0 to_columns value_to_string fields event_name
decode_log-cancelled block index = refl

abbrev kind_of : ℕ → EventKind
kind_of n =
    if n == 1
    then condition_preparation
    else if n == 2
    then position_split
    else if n == 3
    then positions_merge
    else if n == 4
    then payout_redemption
    else if n == 5
    then order_filled
    else if n == 6
    then orders_matched
    else if n == 7
    then order_cancelled
    else if n == 8
    then market_prepared
    else if n == 9
    then question_prepared
    else positions_converted

kind_of-hash_of : (k : EventKind) → kind_of (hash_of k) ≡ k
kind_of-hash_of condition_preparation = refl
kind_of-hash_of position_split = refl
kind_of-hash_of positions_merge = refl
kind_of-hash_of payout_redemption = refl
kind_of-hash_of order_filled = refl
kind_of-hash_of orders_matched = refl
kind_of-hash_of order_cancelled = refl
kind_of-hash_of market_prepared = refl
kind_of-hash_of question_prepared = refl
kind_of-hash_of positions_converted = refl

pub codec-HasDistinctHashes : HasDistinctHashes codec
codec-HasDistinctHashes j k e = sym (kind_of-hash_of j) ∙ ap kind_of e ∙ kind_of-hash_of k

-- A disk whose calls all succeed, with the writers that were closed as its world.
abbrev pub Batch : Type 0
Batch = List Column

abbrev pub Writer : Type 0
Writer = FilePath × List Batch

abbrev pub disk : Disk
disk = record {
  World = List Writer;
  File = FilePath;
  Writer = Writer;
  Batch = Batch;
  timestamp_millis = λ w. 1_700;
  exists = λ path w. false;
  create_dir_all = λ path w. (ok tt, w);
  create_file = λ path w. (ok path, w);
  new_writer = λ file schema w. (ok (file, []), w);
  new_batch = λ schema columns. ok columns;
  write = λ b (writer, w). (ok tt, ((writer.0, writer.1 ++ b ∷ []), w));
  close = λ writer w. (ok tt, w ++ writer ∷ []);
}

abbrev pub writer_laws : WriterLaws disk
writer_laws = record {
  batches = λ writer. writer.1;
  batches-new_writer = λ file schema w writer h. cc;
  batches-write = λ b writer w h. refl;
}

abbrev pub close_laws : CloseLaws disk
close_laws = record {
  closed = λ w. w;
  closed-close = λ writer w h. refl;
  closed-close_failed = λ writer w e h. cc;
}

-- A sink that counts the events since the last rotation, and how often it was rotated and closed.
abbrev pub counter : EventSink
counter = record {
  State = List ℕ;
  write_event = λ event_type block tx index columns s. (ok tt, block ∷ s);
  rotate = λ s. (ok tt, []);
  close = λ s. (ok tt, 0 ∷ s);
}
