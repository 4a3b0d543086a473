-- ===== src/Contracts.antt =====
-- src/contracts.rs: the events that `sol!` declares, and the contracts that are watched.
use polymarket_indexer.Prelude.{ℕ, String, List, [], ◌∷◌}
use polymarket_indexer.Prelude.Outcome.{Result, ok, ◌>>=◌}

-- `bytes32`, `address` and `uint256` are numbers below 2^256, 2^160 and 2^256; nothing here
-- computes with them.
abbrev pub B256 : Type 0
B256 = ℕ

abbrev pub Address : Type 0
Address = ℕ

abbrev pub U256 : Type 0
U256 = ℕ

abbrev pub Bytes : Type 0
Bytes = List ℕ

pub data EventKind : Type 0 where
  condition_preparation position_split positions_merge payout_redemption : EventKind
  order_filled orders_matched order_cancelled : EventKind
  market_prepared question_prepared positions_converted : EventKind

pub record ConditionPreparation : Type 0 where
  pub condition_id : B256
  pub oracle : Address
  pub question_id : B256
  pub outcome_slot_count : U256

pub record PositionSplit : Type 0 where
  pub collateral_token : Address
  pub parent_collection_id : Address
  pub condition_id : B256
  pub partition : B256
  pub amounts : List U256
  pub amount : U256

pub record PositionsMerge : Type 0 where
  pub collateral_token : Address
  pub parent_collection_id : Address
  pub condition_id : B256
  pub partition : B256
  pub amounts : List U256
  pub amount : U256

pub record PayoutRedemption : Type 0 where
  pub redeemer : Address
  pub collateral_token : Address
  pub parent_collection_id : B256
  pub condition_id : B256
  pub index_sets : List U256
  pub amount : U256

pub record OrderFilled : Type 0 where
  pub order_hash : B256
  pub maker : Address
  pub taker : Address
  pub maker_fill_amount : U256
  pub taker_fill_amount : U256
  pub maker_fee : U256
  pub taker_fee : U256

pub record OrdersMatched : Type 0 where
  pub taker_order_hash : B256
  pub maker_order_hash : B256

pub record OrderCancelled : Type 0 where
  pub order_hash : B256

pub record MarketPrepared : Type 0 where
  pub condition_id : B256
  pub creator : Address
  pub market_id : U256
  pub payload : Bytes

pub record QuestionPrepared : Type 0 where
  pub question_id : B256
  pub condition_id : B256
  pub creator : Address
  pub payload : Bytes

pub record PositionsConverted : Type 0 where
  pub condition_id : B256
  pub stakeholder : Address
  pub amount : U256
  pub fee : U256

-- The Rust type that `sol!` declares for an event.
abbrev pub EventOf : EventKind → Type 0
EventOf condition_preparation = ConditionPreparation
EventOf position_split = PositionSplit
EventOf positions_merge = PositionsMerge
EventOf payout_redemption = PayoutRedemption
EventOf order_filled = OrderFilled
EventOf orders_matched = OrdersMatched
EventOf order_cancelled = OrderCancelled
EventOf market_prepared = MarketPrepared
EventOf question_prepared = QuestionPrepared
EventOf positions_converted = PositionsConverted

abbrev pub ctf_address : String
ctf_address = "0x4D97DCd97eC945f40cF65F87097ACe5EA0476045"

abbrev pub ctf_exchange_address : String
ctf_exchange_address = "0x4bFb41d5B3570DeFd03C39a9A4D8dE6Bd8B8982E"

abbrev pub neg_risk_adapter_address : String
neg_risk_adapter_address = "0xd91E80cF2E7be2e162c6513ceD06f1dD0dA35296"

-- `contract_addresses`, over `Address::from_str`.
unfoldable pub contract_addresses : (String → Result Address) → Result (List Address)
contract_addresses from_str = do
  ctf ← from_str ctf_address
  exchange ← from_str ctf_exchange_address
  adapter ← from_str neg_risk_adapter_address
  ok (ctf ∷ exchange ∷ adapter ∷ [])
