-- ===== src/Decode/Columns.antt =====
-- The columns of a decoded event are those of its type: one schema for each event name.
use polymarket_indexer.Prelude.{
  String, ◌≡◌, refl, some, List, [], ◌∷◌, map, arith, str_eq, if◌then◌else◌,
}
use polymarket_indexer.Prelude.Outcome.{ok, >>=-eq-ok}
use polymarket_indexer.Contracts.{
  EventKind, condition_preparation, position_split, positions_merge, payout_redemption,
  order_filled, orders_matched, order_cancelled, market_prepared, question_prepared,
  positions_converted, EventOf,
}
use polymarket_indexer.Decode.{
  Log, DecodedEvent, FieldValue, Codec, event_name, fields, to_columns, decode_as, value_to_string,
}

abbrev pub column_names : DecodedEvent → List String
column_names d = map (λ (name, _). name) d.columns

-- The schema of each event type, as the tests of src/decode.rs list it.
unfoldable pub schema : EventKind → List String
schema condition_preparation = "condition_id" ∷ "oracle" ∷ "question_id" ∷ "outcome_slot_count" ∷ []
schema position_split =
    "collateral_token" ∷ "parent_collection_id" ∷ "condition_id" ∷ "partition" ∷ "amounts"
    ∷ "amount" ∷ []
schema positions_merge =
    "collateral_token" ∷ "parent_collection_id" ∷ "condition_id" ∷ "partition" ∷ "amounts"
    ∷ "amount" ∷ []
schema payout_redemption =
    "redeemer" ∷ "collateral_token" ∷ "parent_collection_id" ∷ "condition_id" ∷ "index_sets"
    ∷ "amount" ∷ []
schema order_filled =
    "order_hash" ∷ "maker" ∷ "taker" ∷ "maker_fill_amount" ∷ "taker_fill_amount" ∷ "maker_fee"
    ∷ "taker_fee" ∷ []
schema orders_matched = "taker_order_hash" ∷ "maker_order_hash" ∷ []
schema order_cancelled = "order_hash" ∷ []
schema market_prepared = "condition_id" ∷ "creator" ∷ "market_id" ∷ "data" ∷ []
schema question_prepared = "question_id" ∷ "condition_id" ∷ "creator" ∷ "data" ∷ []
schema positions_converted = "condition_id" ∷ "stakeholder" ∷ "amount" ∷ "fee" ∷ []

map-fields : (k : EventKind) (e : EventOf k) → map (λ (name, _). name) (fields k e) ≡ schema k
unfolding fields schema
map-fields condition_preparation e = refl
map-fields position_split e = refl
map-fields positions_merge e = refl
map-fields payout_redemption e = refl
map-fields order_filled e = refl
map-fields orders_matched e = refl
map-fields order_cancelled e = refl
map-fields market_prepared e = refl
map-fields question_prepared e = refl
map-fields positions_converted e = refl

-- What `decode_as` makes of a log of kind `k`.
pub record IsOfKind (k : EventKind) (d : DecodedEvent) : Type 0 where
  pub named : d.event_type ≡ event_name k
  pub shaped : column_names d ≡ schema k

module _ (c : Codec) where
  map-to_columns :
      (fs : List (String × FieldValue)) (cols : List (String × String))
      → to_columns c fs ≡ ok cols
      → map (λ (name, _). name) cols ≡ map (λ (name, _). name) fs
  unfolding to_columns
  map-to_columns [] cols h = ground arith
  map-to_columns ((n, v) ∷ fs) cols h =
      let (s, e, h') = >>=-eq-ok (value_to_string c v) _ h in
      let (more, e', h'') = >>=-eq-ok (to_columns c fs) _ h' in
      ground (arith, map-to_columns fs more e')

  pub decode_as-IsOfKind :
      (k : EventKind) (log : Log) (d : DecodedEvent)
      → decode_as c k log ≡ ok (some d)
      → IsOfKind k d
  unfolding decode_as
  decode_as-IsOfKind k log d h =
      let (event, e, h') = >>=-eq-ok (c.log_decode k log) _ h in
      let (cols, e', h'') = >>=-eq-ok (to_columns c (fields k event)) _ h' in
      record {
        named = ground arith;
        shaped = ground (arith, map-to_columns (fields k event) cols e', map-fields k event);
      }

-- The schema that belongs to an event's name.
unfoldable pub schema_of : String → List String
unfolding schema
schema_of name =
    if str_eq name "ConditionPreparation"
    then schema condition_preparation
    else if str_eq name "PositionSplit"
    then schema position_split
    else if str_eq name "PositionsMerge"
    then schema positions_merge
    else if str_eq name "PayoutRedemption"
    then schema payout_redemption
    else if str_eq name "OrderFilled"
    then schema order_filled
    else if str_eq name "OrdersMatched"
    then schema orders_matched
    else if str_eq name "OrderCancelled"
    then schema order_cancelled
    else if str_eq name "MarketPrepared"
    then schema market_prepared
    else if str_eq name "QuestionPrepared"
    then schema question_prepared
    else schema positions_converted

pub schema_of-event_name : (k : EventKind) → schema_of (event_name k) ≡ schema k
unfolding schema_of event_name
schema_of-event_name condition_preparation = refl
schema_of-event_name position_split = refl
schema_of-event_name positions_merge = refl
schema_of-event_name payout_redemption = refl
schema_of-event_name order_filled = refl
schema_of-event_name orders_matched = refl
schema_of-event_name order_cancelled = refl
schema_of-event_name market_prepared = refl
schema_of-event_name question_prepared = refl
schema_of-event_name positions_converted = refl

-- The columns of a decoded event are those that belong to its name.
pub column_names-eq-schema_of :
    (k : EventKind) (d : DecodedEvent) → IsOfKind k d → column_names d ≡ schema_of d.event_type
column_names-eq-schema_of k d h = cc (h.shaped, schema_of-event_name k, h.named)

-- Events of one name have the same columns.
pub column_names-eq :
    (j k : EventKind) (d e : DecodedEvent)
    → IsOfKind j d
    → IsOfKind k e
    → d.event_type ≡ e.event_type
    → column_names d ≡ column_names e
column_names-eq j k d e hd he same =
    cc (column_names-eq-schema_of j d hd, column_names-eq-schema_of k e he, same)
