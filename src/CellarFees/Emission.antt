-- ===== src/CellarFees/Emission.antt =====
-- `GetEmission` of x/cellarfees/keeper/cellarfees.go, with the accessors of the peak.
pub mod Bounds
use sommelier.Base.{ℕ, ◌+◌, String, Option, none, some, List, not, if◌then◌else◌}
use sommelier.Base.Int.{ℤ, pos, negsuc, pos_part, neg_part, ltb_ℤ, leb_ℤ, is_zero, quo_int}
use sommelier.Base.Word.{int64}
use sommelier.Base.Exec.{◌>>=◌, ◌>>◌, pure, gets, or_panic, when}
use sommelier.Sdk.{Coin, Sdk}
use sommelier.Auction.Types.{base_coin_unit}
use sommelier.CellarFees.Types.{Action, update_fees}

module _ ⦃sdk : Sdk⦄ where
  -- `GetLastRewardSupplyPeak`
  abbrev pub get_last_reward_supply_peak : Action ℕ
  get_last_reward_supply_peak = do
    stored ← gets (λ w. w.fees.last_reward_supply_peak)
    or_panic stored

  -- `SetLastRewardSupplyPeak`, which stores the bytes of the absolute value
  abbrev pub set_last_reward_supply_peak : ℤ → Action (Unit {0})
  set_last_reward_supply_peak n =
      update_fees λ f. record f { last_reward_supply_peak = some (pos_part n + neg_part n) }

  -- `sdk.NewCoins(sdk.NewCoin(params.BaseCoinUnit, amount))`
  abbrev pub usomm_coins : ℤ → Action (List Coin)
  usomm_coins amount = do
    c ← or_panic (sdk.new_coin base_coin_unit amount)
    or_panic (sdk.new_coins c)

  -- The supply that an emission is a part of: the remaining one, or the peak if that is not less.
  abbrev pub base_supply : ℤ → ℕ → ℤ
  base_supply remaining peak = if ltb_ℤ (pos peak) remaining then remaining else pos peak

  unfoldable pub get_emission : ℤ → Action (List Coin)
  unfolding int64 quo_int
  get_emission remaining = do
    peak ← get_last_reward_supply_peak
    period ← gets (λ w. w.fees.params.reward_emission_period)
    when (ltb_ℤ (pos peak) remaining) (set_last_reward_supply_peak remaining)
    amount ← or_panic (quo_int (base_supply remaining peak) (int64 period))
    when (leb_ℤ remaining amount)
        (when (not (is_zero amount)) (set_last_reward_supply_peak (pos 0)))
    usomm_coins
        (if is_zero amount then pos 1 else if leb_ℤ remaining amount then remaining else amount)
