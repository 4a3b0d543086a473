-- ===== src/Decode.antt =====
-- src/decode.rs: routing of a log by its first topic, and its normal form as named text columns.
pub mod Columns
pub mod Dispatch
use polymarket_indexer.Prelude.{ℕ, String, Option, none, some, List, [], ◌∷◌, ◌==◌, if◌then◌else◌}
use polymarket_indexer.Prelude.Outcome.{Result, ok, ◌>>=◌}
use polymarket_indexer.Contracts.{
  B256, Address, U256, Bytes, EventKind, condition_preparation, position_split, positions_merge,
  payout_redemption, order_filled, orders_matched, order_cancelled, market_prepared,
  question_prepared, positions_converted, EventOf,
}

-- The parts of `alloy::rpc::types::Log` that the program reads.
pub record Log : Type 0 where
  pub address : Address
  pub topics : List B256
  pub payload : Bytes
  pub block_number : Option ℕ
  pub transaction_hash : Option B256
  pub log_index : Option ℕ

pub record DecodedEvent : Type 0 where
  pub event_type : String
  pub columns : List (String × String)

-- The types at which `value_to_string` is used.
pub data FieldValue : Type 0 where
  b256 : B256 → FieldValue
  address : Address → FieldValue
  u256 : U256 → FieldValue
  u256s : List U256 → FieldValue
  -- A whole decoded event, which `sol!` makes serialisable.
  whole : (k : EventKind) → EventOf k → FieldValue

-- `serde_json::Value`: a string, or another value of the library's.
pub data Json (Other : Type 0) : Type 0 where
  string : String → Json Other
  other : Other → Json Other

-- What `alloy` and `serde_json` provide: the hash of each event's signature, the decoder of its
-- topics and data, `serde_json::to_value`, the text of a JSON value, and that of a hash
-- (`tx_hash.to_string()`).
pub record Codec : Type 1 where
  pub Other : Type 0
  pub signature_hash : EventKind → B256
  pub log_decode : (k : EventKind) → Log → Result (EventOf k)
  pub to_value : FieldValue → Result (Json Other)
  pub to_text : Other → String
  pub hash_text : B256 → String

unfoldable pub topic0 : Log → Option B256
topic0 log = elim log.topics [ [] ↦ none | t ∷ ts ↦ some t ]

unfoldable pub event_name : EventKind → String
event_name condition_preparation = "ConditionPreparation"
event_name position_split = "PositionSplit"
event_name positions_merge = "PositionsMerge"
event_name payout_redemption = "PayoutRedemption"
event_name order_filled = "OrderFilled"
event_name orders_matched = "OrdersMatched"
event_name order_cancelled = "OrderCancelled"
event_name market_prepared = "MarketPrepared"
event_name question_prepared = "QuestionPrepared"
event_name positions_converted = "PositionsConverted"

-- The names and values of each `vec!` of columns. `event.inner` is the `Log<T>` of `alloy::primitives`,
-- whose own field `data` hides that of the event: `event.inner.data` is the event as a whole.
unfoldable pub fields : (k : EventKind) → EventOf k → List (String × FieldValue)
fields condition_preparation e =
    ("condition_id", b256 e.condition_id)
    ∷ ("oracle", address e.oracle)
    ∷ ("question_id", b256 e.question_id)
    ∷ ("outcome_slot_count", u256 e.outcome_slot_count)
    ∷ []
fields position_split e =
    ("collateral_token", address e.collateral_token)
    ∷ ("parent_collection_id", address e.parent_collection_id)
    ∷ ("condition_id", b256 e.condition_id)
    ∷ ("partition", b256 e.partition)
    ∷ ("amounts", u256s e.amounts)
    ∷ ("amount", u256 e.amount)
    ∷ []
fields positions_merge e =
    ("collateral_token", address e.collateral_token)
    ∷ ("parent_collection_id", address e.parent_collection_id)
    ∷ ("condition_id", b256 e.condition_id)
    ∷ ("partition", b256 e.partition)
    ∷ ("amounts", u256s e.amounts)
    ∷ ("amount", u256 e.amount)
    ∷ []
fields payout_redemption e =
    ("redeemer", address e.redeemer)
    ∷ ("collateral_token", address e.collateral_token)
    ∷ ("parent_collection_id", b256 e.parent_collection_id)
    ∷ ("condition_id", b256 e.condition_id)
    ∷ ("index_sets", u256s e.index_sets)
    ∷ ("amount", u256 e.amount)
    ∷ []
fields order_filled e =
    ("order_hash", b256 e.order_hash)
    ∷ ("maker", address e.maker)
    ∷ ("taker", address e.taker)
    ∷ ("maker_fill_amount", u256 e.maker_fill_amount)
    ∷ ("taker_fill_amount", u256 e.taker_fill_amount)
    ∷ ("maker_fee", u256 e.maker_fee)
    ∷ ("taker_fee", u256 e.taker_fee)
    ∷ []
fields orders_matched e =
    ("taker_order_hash", b256 e.taker_order_hash)
    ∷ ("maker_order_hash", b256 e.maker_order_hash)
    ∷ []
fields order_cancelled e = ("order_hash", b256 e.order_hash) ∷ []
fields market_prepared e =
    ("condition_id", b256 e.condition_id)
    ∷ ("creator", address e.creator)
    ∷ ("market_id", u256 e.market_id)
    ∷ ("data", whole market_prepared e)
    ∷ []
fields question_prepared e =
    ("question_id", b256 e.question_id)
    ∷ ("condition_id", b256 e.condition_id)
    ∷ ("creator", address e.creator)
    ∷ ("data", whole question_prepared e)
    ∷ []
fields positions_converted e =
    ("condition_id", b256 e.condition_id)
    ∷ ("stakeholder", address e.stakeholder)
    ∷ ("amount", u256 e.amount)
    ∷ ("fee", u256 e.fee)
    ∷ []

module _ (c : Codec) where
  unfoldable pub value_to_string : FieldValue → Result String
  value_to_string value = do
    v ← c.to_value value
    ok (elim v [ string s ↦ s | other o ↦ c.to_text o ])

  -- The elements of a `vec!` are evaluated in turn; the first `?` that fails ends it.
  unfoldable pub to_columns : List (String × FieldValue) → Result (List (String × String))
  to_columns [] = ok []
  to_columns ((name, value) ∷ rest) = do
    text ← value_to_string value
    more ← to_columns rest
    ok ((name, text) ∷ more)

  -- The body of the branch for one kind of event.
  unfoldable pub decode_as : EventKind → Log → Result (Option DecodedEvent)
  decode_as k log = do
    event ← c.log_decode k log
    columns ← to_columns (fields k event)
    ok (some (record { event_type = event_name k; columns = columns }))

  unfoldable pub route : B256 → Log → Result (Option DecodedEvent)
  route t log =
      if t == c.signature_hash condition_preparation
      then decode_as condition_preparation log
      else if t == c.signature_hash position_split
      then decode_as position_split log
      else if t == c.signature_hash positions_merge
      then decode_as positions_merge log
      else if t == c.signature_hash payout_redemption
      then decode_as payout_redemption log
      else if t == c.signature_hash order_filled
      then decode_as order_filled log
      else if t == c.signature_hash orders_matched
      then decode_as orders_matched log
      else if t == c.signature_hash order_cancelled
      then decode_as order_cancelled log
      else if t == c.signature_hash market_prepared
      then decode_as market_prepared log
      else if t == c.signature_hash question_prepared
      then decode_as question_prepared log
      else if t == c.signature_hash positions_converted
      then decode_as positions_converted log
      else ok none

  unfoldable pub decode_log : Log → Result (Option DecodedEvent)
  unfolding topic0 route
  decode_log log = elim (topic0 log) [ none ↦ ok none | some t ↦ route t log ]
