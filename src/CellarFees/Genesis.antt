-- ===== src/CellarFees/Genesis.antt =====
-- x/cellarfees/keeper/genesis.go, x/cellarfees/types/genesis.go and `GetAPY` of keeper.go.
pub mod Roundtrip
use sommelier.Base.{
  ℕ, ◌+◌, String, Bool, true, false, not, ◌||◌, Option, none, some, List, [], ◌∷◌, ◌==◌, string_eq,
  if◌then◌else◌,
}
use sommelier.Base.Int.{ℤ, pos, ltb_ℤ, is_zero, pos_part, neg_part, ◌*ℤ◌}
use sommelier.Base.Word.{int64}
use sommelier.Base.Exec.{◌>>=◌, ◌>>◌, pure, abort, gets, or_panic, when}
use sommelier.Base.Check.{Checked, refuse, then_check}
use sommelier.Sdk.{Sdk, Coin, zero_dec}
use sommelier.Auction.Types.{base_coin_unit}
use sommelier.CellarFees.Types.{Params, Counters, Action, FeesWorld, update_fees, fees_name}
use sommelier.CellarFees.Counters.{sort}
use sommelier.CellarFees.Emission.{
  get_emission, get_last_reward_supply_peak, set_last_reward_supply_peak,
}
use sommelier.CellarFees.Params.{Error, validate_params, default_params, set_params}

-- The counters' slice is `none` where it is nil.
pub record GenesisState (Decimal : Type 0) : Type 0 where
  pub params : Params Decimal
  pub fee_accrual_counters : Option Counters
  pub last_reward_supply_peak : ℤ

-- What the mint keeper answers, and `Coins.AmountOf`.
pub record Minting (Decimal : Type 0) : Type 0 where
  pub blocks_per_year : ℕ
  pub bonded_ratio : Decimal
  pub staking_token_supply : ℤ
  pub amount_of : String → List Coin → ℤ

-- Whether two slices of one length differ in a denom at some index.
unfoldable pub denoms_differ : Counters → Counters → Bool
denoms_differ [] ds = false
denoms_differ (c ∷ cs) [] = true
denoms_differ (c ∷ cs) (d ∷ ds) = not (c.denom == d.denom) || denoms_differ cs ds

unfoldable pub validate_counters : Option Counters → Checked Error
unfolding denoms_differ sort
validate_counters none = refuse ((true, Error.invalid_fee_accrual_counters) ∷ [])
validate_counters (some cs) =
    refuse ((denoms_differ (sort cs) cs, Error.invalid_fee_accrual_counters) ∷ [])

unfoldable pub validate_genesis : {Decimal : Type 0} → GenesisState Decimal → Checked Error
unfolding validate_params validate_counters
validate_genesis gs = then_check (validate_params gs.params) (
    then_check (validate_counters gs.fee_accrual_counters) (
      refuse
        ((ltb_ℤ gs.last_reward_supply_peak (pos 0), Error.invalid_last_reward_supply_peak) ∷ [])))

-- The counters that a store holds once a slice is written: nil has no bytes and is read as none.
abbrev pub stored_counters : Option Counters → Counters
stored_counters none = []
stored_counters (some cs) = cs

module _ ⦃sdk : Sdk⦄ where
  unfoldable pub default_genesis : GenesisState sdk.Decimal
  unfolding default_params
  default_genesis = record {
    params = default_params;
    fee_accrual_counters = some [];
    last_reward_supply_peak = pos 0;
  }

  -- `account_found` says whether the module's account is set.
  unfoldable pub init_genesis : Bool → GenesisState sdk.Decimal → Action (Unit {0})
  unfolding set_params
  init_genesis account_found gs = do
    set_params gs.params
    update_fees
        (λ f. record f { fee_accrual_counters = some (stored_counters gs.fee_accrual_counters) })
    set_last_reward_supply_peak gs.last_reward_supply_peak
    when (not account_found) abort

  unfoldable pub export_genesis : Action (GenesisState sdk.Decimal)
  export_genesis = do
    params ← gets (λ w. w.fees.params)
    stored ← gets (λ w. w.fees.fee_accrual_counters)
    counters ← or_panic stored
    peak ← get_last_reward_supply_peak
    pure (record {
      params = params;
      fee_accrual_counters = some counters;
      last_reward_supply_peak = pos peak;
    })

  -- The second half of `GetAPY`, where some rewards remain.
  unfoldable pub yield_of : Minting sdk.Decimal → ℤ → Action sdk.Decimal
  unfolding get_emission int64 ◌*ℤ◌
  yield_of mint remaining = do
    emission ← get_emission remaining
    share ← or_panic (
        sdk.quo (sdk.dec_int (mint.amount_of base_coin_unit emission *ℤ int64 mint.blocks_per_year))
          (sdk.dec_int mint.staking_token_supply))
    or_panic (sdk.quo share mint.bonded_ratio)

  -- `GetAPY`, which calls `GetEmission` and so may move the peak
  unfoldable pub get_apy : Minting sdk.Decimal → Action sdk.Decimal
  unfolding yield_of
  get_apy mint = do
    remaining ← gets (λ w. (sdk.module_balance w.chain.bank fees_name base_coin_unit).amount)
    if is_zero remaining then pure zero_dec else yield_of mint remaining
