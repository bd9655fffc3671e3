-- ===== src/CellarFees/Params.antt =====
-- x/cellarfees/types/params.go and errors.go, and `SetParams` of the keeper. The parameters' types are
-- static here, so that the checks of a parameter's dynamic type always pass.
use sommelier.Base.{ℕ, ◌==◌, nat_eq, none, [], ◌∷◌}
use sommelier.Base.Exec.{◌>>◌, abort, when}
use sommelier.Base.Check.{Checked, refuse, then_check}
use sommelier.Base.Table.Prefix.{is_some}
use sommelier.Sdk.{Sdk}
use sommelier.CellarFees.Types.{Params, Action, update_fees}

pub data Error : Type 0 where
  invalid_fee_accrual_auction_threshold invalid_reward_emission_period : Error
  invalid_initial_price_decrease_rate invalid_price_decrease_block_interval : Error
  invalid_fee_accrual_counters invalid_last_reward_supply_peak invalid_auction_interval : Error

unfoldable pub validate_fee_accrual_auction_threshold : ℕ → Checked Error
validate_fee_accrual_auction_threshold threshold =
    refuse ((threshold == 0, Error.invalid_fee_accrual_auction_threshold) ∷ [])

unfoldable pub validate_reward_emission_period : ℕ → Checked Error
validate_reward_emission_period period =
    refuse ((period == 0, Error.invalid_reward_emission_period) ∷ [])

-- The code compares the rate by `==`, which compares the pointers inside, with decimals that it has
-- just made, so that neither test is ever true.
unfoldable pub validate_initial_price_decrease_rate : {Decimal : Type 0} → Decimal → Checked Error
validate_initial_price_decrease_rate rate = none

unfoldable pub validate_price_decrease_block_interval : ℕ → Checked Error
validate_price_decrease_block_interval interval =
    refuse ((interval == 0, Error.invalid_price_decrease_block_interval) ∷ [])

unfoldable pub validate_auction_interval : ℕ → Checked Error
validate_auction_interval interval = refuse ((interval == 0, Error.invalid_auction_interval) ∷ [])

-- `Params.ValidateBasic`, which leaves the interval between auctions out
unfoldable pub validate_params : {Decimal : Type 0} → Params Decimal → Checked Error
unfolding validate_fee_accrual_auction_threshold validate_reward_emission_period
    validate_initial_price_decrease_rate validate_price_decrease_block_interval
validate_params p =
    then_check (validate_fee_accrual_auction_threshold p.fee_accrual_auction_threshold) (
      then_check (validate_reward_emission_period p.reward_emission_period) (
        then_check (validate_initial_price_decrease_rate p.initial_price_decrease_rate)
          (validate_price_decrease_block_interval p.price_decrease_block_interval)))

-- What the subspace checks when the parameters are set, pair by pair: `ParamSetPairs`.
unfoldable pub validate_pairs : {Decimal : Type 0} → Params Decimal → Checked Error
unfolding validate_params validate_auction_interval
validate_pairs p = then_check (validate_params p) (validate_auction_interval p.auction_interval)

module _ ⦃sdk : Sdk⦄ where
  unfoldable pub default_params : Params sdk.Decimal
  default_params = record {
    fee_accrual_auction_threshold = 2;
    reward_emission_period = 403200;
    initial_price_decrease_rate = sdk.dec_str "0.0000648";
    price_decrease_block_interval = 10;
    auction_interval = 15000;
  }

  -- `SetParams`, of a subspace that panics at a value that does not validate. What it has written
  -- before that is not kept: nothing reads it after a panic.
  unfoldable pub set_params : Params sdk.Decimal → Action (Unit {0})
  unfolding validate_pairs
  set_params p = do
    when (is_some (validate_pairs p)) abort
    update_fees (λ f. record f { params = p })
