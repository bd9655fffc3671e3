-- ===== src/Auction/Validate.antt =====
-- The stateless checks of x/auction/types/auction.go and msgs.go. A check returns the error that it
-- ends with, or nothing.

use sommelier.Base.{
  String, Bool, true, false, not, ◌||◌, none, some, [], ◌∷◌, ltb, ◌==◌, nat_eq, string_eq,
  starts_with,
}
use sommelier.Base.Int.{pos, ltb_ℤ}
use sommelier.Base.Check.{Checked}
pub use sommelier.Base.Check.{refuse, then_check, check_all}
use sommelier.Sdk.{Coin, Sdk, lte, zero_dec, one_dec, is_positive_dec}
use sommelier.Auction.Types.{
  Auction, Bid, TokenPrice, ProposedTokenPrice, MsgSubmitBid, Error, base_coin_unit,
}

abbrev pub Check : Type 0
Check = Checked Error

-- `Coin.IsPositive`
abbrev pub is_positive : Coin → Bool
is_positive c = ltb_ℤ (pos 0) c.amount

module _ ⦃sdk : Sdk⦄ where
  -- A rate outside the open interval from 0 to 1.
  abbrev pub bad_rate : sdk.Decimal → Bool
  bad_rate r = lte r zero_dec || lte one_dec r

  -- The denom of a price: one with the bridge's prefix, or usomm.
  abbrev pub priced_denom : String → Bool
  priced_denom d = starts_with d sdk.gravity_denom_prefix || d == base_coin_unit

  -- `_, err := sdk.AccAddressFromBech32(a)` ends with no error.
  abbrev pub is_acc_address : String → Bool
  is_acc_address a = elim (sdk.acc_address a) [ none ↦ false | some _ ↦ true ]

  -- `!c.IsValid() || !c.IsPositive()`
  abbrev pub bad_coin : Coin → Bool
  bad_coin c = not (sdk.is_valid c) || not (is_positive c)

  unfoldable pub validate_auction : Auction sdk.Decimal → Check
  validate_auction a = refuse (
      (a.id == 0, Error.auction_id_must_be_non_zero)
      ∷ (bad_coin a.starting_tokens_for_sale, Error.auction_starting_amount_must_be_positive)
      ∷ (a.starting_tokens_for_sale.denom == base_coin_unit, Error.cannot_auction_usomm)
      ∷ (a.start_block == 0, Error.invalid_start_block)
      ∷ (bad_rate a.initial_price_decrease_rate, Error.invalid_initial_decrease_rate)
      ∷ (bad_rate a.current_price_decrease_rate, Error.invalid_current_decrease_rate)
      ∷ (a.price_decrease_block_interval == 0, Error.invalid_block_decrease_interval)
      ∷ (not (is_positive_dec a.initial_unit_price_in_usomm), Error.price_must_be_positive)
      ∷ (not (is_positive_dec a.current_unit_price_in_usomm), Error.price_must_be_positive)
      ∷ (a.funding_module_account == "", Error.unauthorized_funding_module)
      ∷ (a.proceeds_module_account == "", Error.unauthorized_funding_module)
      ∷ [])

  unfoldable pub validate_bid : Bid sdk.Decimal → Check
  validate_bid b = refuse (
      (b.id == 0, Error.bid_id_must_be_non_zero)
      ∷ (b.auction_id == 0, Error.auction_id_must_be_non_zero)
      ∷ (b.bidder == "", Error.address_expected)
      ∷ (not (is_acc_address b.bidder), Error.invalid_address)
      ∷ (bad_coin b.max_bid_in_usomm, Error.bid_amount_must_be_positive)
      ∷ (not (b.max_bid_in_usomm.denom == base_coin_unit), Error.bid_must_be_in_usomm)
      ∷ (
        not (starts_with b.sale_token_minimum_amount.denom sdk.gravity_denom_prefix),
        Error.invalid_token_being_bid_on,
      )
      ∷ (bad_coin b.sale_token_minimum_amount, Error.minimum_amount_must_be_positive)
      ∷ (
        not (sdk.is_valid b.total_fulfilled_sale_tokens),
        Error.fulfilled_amount_must_be_non_negative,
      )
      ∷ (
        not (is_positive_dec b.sale_token_unit_price_in_usomm),
        Error.bid_unit_price_must_be_positive,
      )
      ∷ (ltb_ℤ b.total_usomm_paid.amount (pos 0), Error.bid_payment_cannot_be_negative)
      ∷ (not (b.total_usomm_paid.denom == base_coin_unit), Error.bid_must_be_in_usomm)
      ∷ [])

  unfoldable pub validate_token_price : TokenPrice sdk.Decimal → Check
  validate_token_price t = refuse (
      (t.denom == "", Error.denom_cannot_be_empty)
      ∷ (not (is_positive_dec t.usd_price), Error.price_must_be_positive)
      ∷ (t.last_updated_block == 0, Error.invalid_last_updated_block)
      ∷ (not (priced_denom t.denom), Error.invalid_token_price_denom)
      ∷ (ltb 18 t.exponent, Error.token_price_exponent_too_high)
      ∷ [])

  unfoldable pub validate_proposed_price : ProposedTokenPrice sdk.Decimal → Check
  validate_proposed_price t = refuse (
      (t.denom == "", Error.denom_cannot_be_empty)
      ∷ (not (is_positive_dec t.usd_price), Error.price_must_be_positive)
      ∷ (not (priced_denom t.denom), Error.invalid_token_price_denom)
      ∷ (ltb 18 t.exponent, Error.token_price_exponent_too_high)
      ∷ [])

  unfoldable pub validate_msg : MsgSubmitBid → Check
  validate_msg m = refuse (
      (m.auction_id == 0, Error.auction_id_must_be_non_zero)
      ∷ (not (m.max_bid_in_usomm.denom == base_coin_unit), Error.bid_must_be_in_usomm)
      ∷ (bad_coin m.max_bid_in_usomm, Error.bid_amount_must_be_positive)
      ∷ (bad_coin m.sale_token_minimum_amount, Error.minimum_amount_must_be_positive)
      ∷ (
        not (starts_with m.sale_token_minimum_amount.denom "gravity0x"),
        Error.invalid_token_being_bid_on,
      )
      ∷ (not (is_acc_address m.signer), Error.invalid_address)
      ∷ [])
