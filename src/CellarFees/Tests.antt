-- ===== src/CellarFees/Tests.antt =====
-- The theorems about the fees' module, each at a small chain.
mod Runs
use sommelier.Base.{ℕ, ◌^◌, ◌≤◌, ◌≡◌, refl, true, false, some, [], ◌∷◌, arith}
use sommelier.Base.Int.{ℤ, pos, is_zero}
use sommelier.Base.Word.{add_u64}
use sommelier.Base.Exec.{ok, panic}
use sommelier.Base.Table
use sommelier.Base.Table.Ordered.{nat_key, text_key}
use sommelier.Sdk.Scaled.{scaled, of_int, add_dec, sub_dec, mul_dec, quo_dec, power_dec}
use sommelier.Auction.Begin.{begin_auction, on_sale}
use sommelier.Auction.Begin.Opening.{Quote, Opens}
use sommelier.Auction.Validate.{validate_auction}
use sommelier.Auction.Invariant.{IsConsistent}
use sommelier.Auction.Tests.{first_world, first_store-IsConsistent, only_fees, sale_denom}
use sommelier.CellarFees.Types.{Counters, FeesWorld, fees_name}
use sommelier.CellarFees.Counters.{counter, increment_counter, reset_counter}
use sommelier.CellarFees.Counters.Map.{view, IsSorted, increment_counter-view, reset_counter-view}
use sommelier.Cork.Tests.{texts, voted}
use sommelier.CellarFees.Hooks.{SendToCosmosEvent, after_send_to_cosmos_event}
use sommelier.CellarFees.Hooks.Counting.{after_send_to_cosmos_event-counts}
use sommelier.CellarFees.Emission.{get_emission}
use sommelier.CellarFees.Emission.Bounds.{CoinLaws, usomm, get_emission_bounds}
use sommelier.CellarFees.Blocks.{try_auction, begin_blocker, auction_off}
use sommelier.CellarFees.Blocks.Keeping.{begin_blocker-IsConsistent}
use sommelier.CellarFees.Blocks.Starting.{call, for_sale, try_auction_started, try_auction_panics}

abbrev pub two_counters : Counters
two_counters = counter sale_denom 1 ∷ counter "gravity0xbb" 4 ∷ []

pub two_counters-IsSorted : IsSorted two_counters
two_counters-IsSorted = ((refl, tt), (tt, tt))

increment_counter-view_example :
    (view (increment_counter sale_denom two_counters) ≡ Table.set sale_denom 2 (view two_counters))
    × IsSorted (increment_counter sale_denom two_counters)
unfolding Table.get add_u64
increment_counter-view_example =
    increment_counter-view sale_denom two_counters two_counters-IsSorted

-- The fees at a decrease rate, with a first peak of 500.
abbrev pub fees_at : ℤ → FeesWorld scaled
fees_at rate = record {
  fees = record {
    params = record {
      fee_accrual_auction_threshold = 1;
      reward_emission_period = 20;
      initial_price_decrease_rate = rate;
      price_decrease_block_interval = 10;
      auction_interval = 5;
    };
    fee_accrual_counters = some two_counters;
    last_reward_supply_peak = some 500;
  };
  chain = first_world;
}

abbrev pub good_fees : FeesWorld scaled
good_fees = fees_at (pos (10 ^ 16))

scaled_coins : CoinLaws scaled
scaled_coins = record { makes = λ n h. ground arith; keeps = λ n h. ground arith }

get_emission_bounds_example :
    (n : ℕ) × ((get_emission (pos 800) good_fees).0 ≡ ok (usomm n ∷ [])) × (1 ≤ n) × (n ≤ 800)
get_emission_bounds_example =
    get_emission_bounds scaled_coins 800 500 good_fees refl (omega arith) (omega arith)
      (omega arith)

begin_blocker-IsConsistent_example :
    IsConsistent (begin_blocker only_fees 100 good_fees).1.chain.store
begin_blocker-IsConsistent_example =
    begin_blocker-IsConsistent only_fees 100 good_fees first_store-IsConsistent

it_starts : (try_auction only_fees 100 sale_denom good_fees).0 ≡ ok true
unfolding of_int add_dec sub_dec mul_dec quo_dec power_dec try_auction begin_auction Table.get
    Table.set validate_auction auction_off
it_starts = refl

try_auction_started_example :
    (on_sale sale_denom good_fees.chain.store ≡ false)
    × (is_zero (for_sale only_fees 100 sale_denom good_fees).amount ≡ false)
    × ((q : Quote 100 sale_denom first_world) × Opens only_fees 100
          (for_sale only_fees 100 sale_denom good_fees)
          (pos (10 ^ 16))
          10
          fees_name
          fees_name
          first_world
          q)
try_auction_started_example = try_auction_started only_fees 100 sale_denom good_fees it_starts

-- A decrease rate of 0.
it_panics : (try_auction only_fees 100 sale_denom (fees_at (pos 0))).0 ≡ panic
unfolding of_int add_dec sub_dec mul_dec quo_dec power_dec try_auction begin_auction Table.get
    Table.set validate_auction auction_off
it_panics = refl

try_auction_panics_example : (call only_fees 100 sale_denom (fees_at (pos 0))).0 ≡ panic
try_auction_panics_example = try_auction_panics only_fees 100 sale_denom (fees_at (pos 0)) it_panics

abbrev fee_event : SendToCosmosEvent
fee_event = record {
  amount = pos 3;
  cosmos_receiver = "fees";
  ethereum_sender = "cellar";
  token_contract = sale_denom;
}

after_send_to_cosmos_event-counts_example :
    (cs : Counters) × (after_send_to_cosmos_event texts "fees" (λ a. a) voted fee_event good_fees
      ≡ (
        ok tt,
        record good_fees { fees = record good_fees.fees { fee_accrual_counters = some cs } },
      ))
    × IsSorted cs
    × (Table.get sale_denom (view cs) ≡ some 2)
unfolding Table.get add_u64
after_send_to_cosmos_event-counts_example =
    after_send_to_cosmos_event-counts texts "fees" (λ a. a) voted fee_event two_counters good_fees
      sale_denom refl two_counters-IsSorted
