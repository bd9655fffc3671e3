-- ===== src/Incentives/Tests.antt =====
-- A block of x/incentives that pays, with the pool counted in one denom.
use sommelier.Base.{ℕ, ◌≡◌, refl, List, [], ◌∷◌, ◌+◌, ◌-◌, ltb}
use sommelier.Base.Int.{ℤ, pos, pos_part}
use sommelier.Base.Exec.{ok}
use sommelier.Sdk.{Coin}
use sommelier.Sdk.Scaled.{scaled}
use sommelier.Auction.Types.{base_coin_unit}
use sommelier.Incentives.{Rewards, Incentives, end_blocker, distribute, send_rewards}

abbrev amount_of : List Coin → ℕ
amount_of [] = 0
amount_of (c ∷ coins) = pos_part c.amount + amount_of coins

abbrev rewards : Rewards ℤ
rewards = record {
  DecCoins = ℕ;
  dec_coins = amount_of;
  safe_sub = λ a b. (a - b, ltb a b);
  distribution_name = "distribution";
  fee_collector_name = "fee_collector";
  blocks_per_year = 6311520;
  bonded_ratio = pos 1;
  staking_token_supply = pos 1000;
}

abbrev funded : Incentives rewards
funded = record {
  params = record {
    distribution_per_block = record { denom = base_coin_unit; amount = pos 3 };
    incentives_cutoff_height = 100;
  };
  community_pool = 10;
  bank = ("distribution", base_coin_unit, 50) ∷ [];
}

it_pays : (end_blocker rewards 7 funded).0 ≡ ok tt
unfolding end_blocker distribute send_rewards
it_pays = refl
