-- ===== src/Auction/Params.antt =====
-- x/auction/types/params.go. The parameters' types are static here, so that the checks of a
-- parameter's dynamic type always pass, and those that test nothing else are left out.
use sommelier.Base.{ℕ, ◌==◌, nat_eq, [], ◌∷◌, ◌||◌}
use sommelier.Sdk.{Sdk, lt}
use sommelier.Auction.Types.{Params, Error}
use sommelier.Auction.Validate.{Check, refuse, then_check}

module _ ⦃sdk : Sdk⦄ where
  unfoldable pub default_params : Params sdk.Decimal
  default_params = record {
    price_max_block_age = 806400;
    minimum_bid_in_usomm = 1000000;
    minimum_sale_tokens_usd_value = sdk.dec_str "1.0";
    auction_max_block_age = 864000;
    auction_price_decrease_acceleration_rate = sdk.dec_str "0.001";
    minimum_auction_height = 0;
  }

  unfoldable pub validate_price_max_block_age : ℕ → Check
  validate_price_max_block_age age =
      refuse ((age == 0, Error.token_price_max_block_age_must_be_positive) ∷ [])

  unfoldable pub validate_minimum_sale_tokens_usd_value : sdk.Decimal → Check
  validate_minimum_sale_tokens_usd_value v =
      refuse ((lt v (sdk.dec_str "1.0"), Error.invalid_minimum_sale_tokens_usd_value) ∷ [])

  unfoldable pub validate_acceleration_rate : sdk.Decimal → Check
  validate_acceleration_rate r = refuse (
      (lt r (sdk.dec_str "0") || lt (sdk.dec_str "1.0") r, Error.invalid_acceleration_rate_param)
      ∷ [])

  unfoldable pub validate_params : Params sdk.Decimal → Check
  unfolding validate_price_max_block_age validate_minimum_sale_tokens_usd_value
      validate_acceleration_rate
  validate_params p = then_check (validate_price_max_block_age p.price_max_block_age) (
      then_check (validate_minimum_sale_tokens_usd_value p.minimum_sale_tokens_usd_value)
        (validate_acceleration_rate p.auction_price_decrease_acceleration_rate))
