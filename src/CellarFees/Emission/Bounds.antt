-- ===== src/CellarFees/Emission/Bounds.antt =====
-- What an emission comes to.
use sommelier.Base.{
  ℕ, ◌/◌, ◌^◌, ◌≤◌, ◌<◌, ◌≡◌, some, [], ◌∷◌, arith, ltb, leb, ◌==◌, nat_eq, if◌then◌else◌,
}
use sommelier.Base.Int.{pos, quo_int, quo_ℤ}
use sommelier.Base.Word.{int64}
use sommelier.Base.Exec.{ok}
use sommelier.Sdk.{Coin, Sdk}
use sommelier.Auction.Types.{base_coin_unit}
use sommelier.CellarFees.Types.{FeesWorld}
use sommelier.CellarFees.Emission.{get_emission}

-- `NewCoin` and `NewCoins` at a positive amount of usomm, whose denom is valid.
pub record CoinLaws (sdk : Sdk) : Type 0 where
  pub makes :
      (n : ℕ)
      → 0 < n
      → sdk.new_coin base_coin_unit (pos n)
        ≡ some (record { denom = base_coin_unit; amount = pos n })
  pub keeps :
      (n : ℕ)
      → 0 < n
      → sdk.new_coins (record { denom = base_coin_unit; amount = pos n })
        ≡ some (record { denom = base_coin_unit; amount = pos n } ∷ [])

abbrev pub usomm : ℕ → Coin
usomm n = record { denom = base_coin_unit; amount = pos n }

-- The amount that is emitted of a supply, at a peak and a period.
abbrev emitted : ℕ → ℕ → ℕ → ℕ
emitted remaining peak period =
    let amount = (if ltb peak remaining then remaining else peak) / period in
    if amount == 0 then 1 else if leb remaining amount then remaining else amount

emitted_positive : (remaining peak period : ℕ) → 0 < remaining → 1 ≤ emitted remaining peak period
emitted_positive remaining peak period h = ground arith

emitted_bounded :
    (remaining peak period : ℕ) → 0 < remaining → emitted remaining peak period ≤ remaining
emitted_bounded remaining peak period h = ground arith

module _ ⦃sdk : Sdk⦄ where
  -- If coins of a positive amount of usomm can be made, a peak is stored, the emission period is a positive
  -- int64 and the remaining supply is positive, then `GetEmission` neither errs nor panics, and
  -- emits at least 1 usomm and at most the remaining supply.
  pub get_emission_bounds :
      CoinLaws sdk
      → (remaining peak : ℕ) (w : FeesWorld sdk) → w.fees.last_reward_supply_peak ≡ some peak
      → 0 < w.fees.params.reward_emission_period
      → w.fees.params.reward_emission_period < 2 ^ 63
      → 0 < remaining
      → (n : ℕ) × ((get_emission (pos remaining) w).0 ≡ ok (usomm n ∷ []))
        × (1 ≤ n)
        × (n ≤ remaining)
  unfolding get_emission int64 quo_int quo_ℤ
  get_emission_bounds laws remaining peak w stored some_period small some_left =
      let period = w.fees.params.reward_emission_period in
      let n = emitted remaining peak period in
      let positive = emitted_positive remaining peak period some_left in
      (
        n,
        ground (arith, stored, laws.makes n positive, laws.keeps n positive),
        positive,
        emitted_bounded remaining peak period some_left,
      )
