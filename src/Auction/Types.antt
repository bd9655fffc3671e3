-- ===== src/Auction/Types.antt =====
-- The data of x/auction: proto/auction/v1/auction.proto, x/auction/types/errors.go and the keeper's
-- state (x/auction/keeper/keeper.go). A `Decimal` is a parameter, as it is the SDK's.
use sommelier.Base.{ℕ, String, List}
use sommelier.Base.Table.{Table}
use sommelier.Sdk.{Coin, Sdk}

-- `app/params/config.go`
abbrev pub base_coin_unit : String
base_coin_unit = "usomm"

abbrev pub coin_exponent : ℕ
coin_exponent = 6

-- `types.ModuleName`
abbrev pub module_name : String
module_name = "auction"

pub record Auction (Decimal : Type 0) : Type 0 where
  pub id : ℕ
  pub starting_tokens_for_sale : Coin
  pub start_block : ℕ
  pub end_block : ℕ
  pub initial_price_decrease_rate : Decimal
  pub current_price_decrease_rate : Decimal
  pub price_decrease_block_interval : ℕ
  pub initial_unit_price_in_usomm : Decimal
  pub current_unit_price_in_usomm : Decimal
  pub remaining_tokens_for_sale : Coin
  pub funding_module_account : String
  pub proceeds_module_account : String

pub record Bid (Decimal : Type 0) : Type 0 where
  pub id : ℕ
  pub auction_id : ℕ
  pub bidder : String
  pub max_bid_in_usomm : Coin
  pub sale_token_minimum_amount : Coin
  pub total_fulfilled_sale_tokens : Coin
  pub sale_token_unit_price_in_usomm : Decimal
  pub total_usomm_paid : Coin
  pub block_height : ℕ

pub record TokenPrice (Decimal : Type 0) : Type 0 where
  pub denom : String
  pub exponent : ℕ
  pub usd_price : Decimal
  pub last_updated_block : ℕ

pub record ProposedTokenPrice (Decimal : Type 0) : Type 0 where
  pub denom : String
  pub exponent : ℕ
  pub usd_price : Decimal

pub record Params (Decimal : Type 0) : Type 0 where
  pub price_max_block_age : ℕ
  pub minimum_bid_in_usomm : ℕ
  pub minimum_sale_tokens_usd_value : Decimal
  pub auction_max_block_age : ℕ
  pub auction_price_decrease_acceleration_rate : Decimal
  pub minimum_auction_height : ℕ

pub record MsgSubmitBid : Type 0 where
  pub auction_id : ℕ
  pub signer : String
  pub max_bid_in_usomm : Coin
  pub sale_token_minimum_amount : Coin

-- The sentinel errors, in the order of their codes; the last two are the SDK's invalid address and
-- an error of the bank, which the keeper hands on.
pub data Error : Type 0 where
  could_not_find_sale_token_price could_not_find_somm_token_price : Error
  last_sale_token_price_too_old last_somm_token_price_too_old : Error
  auction_starting_amount_must_be_positive cannot_auction_usomm : Error
  invalid_initial_decrease_rate invalid_block_decrease_interval : Error
  unauthorized_funding_module unauthorized_proceeds_module : Error
  cannot_start_two_auctions_for_same_denom_simultaneously converting_string_to_dec : Error
  auction_not_found bid_auction_denom_mismatch auction_ended insufficient_bid : Error
  minimum_purchase_amount_larger_than_tokens_remaining auction_id_must_be_non_zero : Error
  invalid_start_block invalid_current_decrease_rate price_must_be_positive : Error
  denom_cannot_be_empty invalid_last_updated_block bid_id_must_be_non_zero : Error
  bid_amount_must_be_positive bid_must_be_in_usomm invalid_token_being_bid_on : Error
  minimum_amount_must_be_positive address_expected bid_unit_price_must_be_positive : Error
  invalid_token_price_denom token_price_updated_more_than_once : Error
  token_price_max_block_age_must_be_positive invalid_price_max_block_age_parameter_type : Error
  proposal_must_have_at_least_one_price fulfilled_amount_must_be_non_negative : Error
  bid_payment_cannot_be_negative bid_amount_is_too_small minimum_bid_param : Error
  invalid_auction_max_block_age_param invalid_acceleration_rate_param : Error
  token_price_exponent_too_high invalid_minimum_sale_tokens_usd_value : Error
  auction_below_minimum_usd_value invalid_minimum_auction_height_param : Error
  auction_below_minimum_height invalid_address : Error

-- The module's store, a table for each prefix. An id that is not stored is read as 0.
pub record Auctions (Decimal : Type 0) : Type 0 where
  pub params : Params Decimal
  pub active : Table ℕ (Auction Decimal)
  pub ended : Table ℕ (Auction Decimal)
  pub bids : Table (ℕ × ℕ) (Bid Decimal)
  pub token_prices : Table String (TokenPrice Decimal)
  pub last_auction_id : ℕ
  pub last_bid_id : ℕ

-- What the keeper's methods read and write: the store and the bank's accounts.
pub record World (sdk : Sdk) : Type 0 where
  pub store : Auctions sdk.Decimal
  pub bank : sdk.Bank

-- The two sets of module names that `NewKeeper` is given.
pub record Keeper : Type 0 where
  pub funding_module_accounts : List String
  pub proceeds_module_accounts : List String
