-- ===== src/CellarFees/Types.antt =====
-- The data and the store of x/cellarfees: proto/cellarfees/v1 and x/cellarfees/keeper/keeper.go.
use sommelier.Base.{ℕ, String, Option, List}
use sommelier.Base.Exec.{Exec, modify}
use sommelier.Sdk.{Sdk}
use sommelier.Auction.Types.{World, Error}

abbrev pub fees_name : String
fees_name = "cellarfees"

-- `authtypes.FeeCollectorName`
abbrev pub fee_collector_name : String
fee_collector_name = "fee_collector"

pub record FeeAccrualCounter : Type 0 where
  pub denom : String
  pub count : ℕ

abbrev pub Counters : Type 0
Counters = List FeeAccrualCounter

pub record Params (Decimal : Type 0) : Type 0 where
  pub fee_accrual_auction_threshold : ℕ
  pub reward_emission_period : ℕ
  pub initial_price_decrease_rate : Decimal
  pub price_decrease_block_interval : ℕ
  pub auction_interval : ℕ

-- The peak is kept by the bytes of its absolute value. What is not stored yet is absent.
pub record Fees (Decimal : Type 0) : Type 0 where
  pub params : Params Decimal
  pub fee_accrual_counters : Option Counters
  pub last_reward_supply_peak : Option ℕ

-- The module beside the auction module, whose keeper it calls, and the bank.
pub record FeesWorld (sdk : Sdk) : Type 0 where
  pub fees : Fees sdk.Decimal
  pub chain : World sdk

abbrev pub Action : ⦃sdk : Sdk⦄ → Type 0 → Type 0
Action ⦃sdk⦄ A = Exec (FeesWorld sdk) Error A

abbrev pub update_fees : ⦃sdk : Sdk⦄ → (Fees sdk.Decimal → Fees sdk.Decimal) → Action (Unit {0})
update_fees f = modify λ w. record w { fees = f w.fees }
