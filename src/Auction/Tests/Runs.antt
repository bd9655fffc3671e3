-- ===== src/Auction/Tests/Runs.antt =====
-- The theorems about the auction module, each at the chain of the parent module.
use mathlib.Core.List.{reverse}
use Prim.Native.Nat.{compare, Ordering, ◌<◌}
use native.Mathlib.Omega.{compare-eq, compare-gt}
use sommelier.Base.{
  ℕ, ◌^◌, ◌≡◌, ◌≢◌, ◌⊎◌, refl, true, none, some, [], ◌∷◌, arith, not, ◌&&◌, ◌==◌, nat_eq, any,
  if◌then◌else◌,
}
use sommelier.Base.Int.{pos, ◌+ℤ◌, ◌≤ℤ◌}
use sommelier.Base.Word.{sub_u64}
use sommelier.Base.Exec.{ok, err, wrapped}
use sommelier.Base.Table
use sommelier.Base.Table.{Entries}
use sommelier.Base.Table.Ordered.{nat_key, pair_key, text_key}
use sommelier.Sdk.Scaled.{scaled, of_int, add_dec, sub_dec, mul_dec, quo_dec, power_dec}
use sommelier.Auction.Types.{World, Error}
use sommelier.Auction.Validate.{validate_auction, validate_bid, validate_proposed_price}
use sommelier.Auction.Store.{
  get_bids_by_auction, get_ended_auction, get_ended_auctions, get_token_price,
}
use sommelier.Auction.Begin.{begin_auction}
use sommelier.Auction.Begin.Opening.{Quote, Opens, begin_auction-Opens}
use sommelier.Auction.Finish.{finish_auction, add_payments}
use sommelier.Auction.Bidding.{submit_bid, prepare_bid, settle, fulfil, minimum_bid, Offer}
use sommelier.Auction.Bidding.Outcome.{
  Priced, Settled, submit_bid_accepts, submit_bid_rejects, fulfil_bounds,
}
use sommelier.Auction.EndBlock.{end_blocker, prune_ended}
use sommelier.Auction.EndBlock.Pruning.{stale, prune_ended_exact}
use sommelier.Auction.EndBlock.Pricing.{AllPriced, CmpSwap, end_blocker-AllPriced}
use sommelier.Auction.Prices.{handle_set_token_prices, validate_proposal, validate_prices}
use sommelier.Auction.Prices.Stored.{expected, handle_set_token_prices_stores}
use sommelier.Auction.Params.{
  default_params, validate_params, validate_price_max_block_age,
  validate_minimum_sale_tokens_usd_value, validate_acceleration_rate,
}
use sommelier.Auction.Genesis.{init_genesis, export_genesis}
use sommelier.Auction.Genesis.Roundtrip.{bare, load-export}
use sommelier.Auction.Invariant.{IsConsistent}
use sommelier.Auction.Invariant.Operations.{begin_auction-IsConsistent, submit_bid-IsConsistent}
use sommelier.Auction.Invariant.Chain.{begins, bids, ends_block, here, next, Reach-IsConsistent}
use sommelier.Auction.Tests.{
  beginning, first_world, first_store, open_world, sold_world, only_fees, coin_of, sale_denom,
  alice_bid, whole_bid, low_bid, alice_placed, auction_at, ended_store, new_prices,
  first_store-IsConsistent,
}

it_begins : (beginning first_world).0 ≡ ok tt
unfolding of_int add_dec sub_dec mul_dec quo_dec power_dec begin_auction Table.get Table.set
    validate_auction
it_begins = refl

begin_auction-Opens_example :
    (q : Quote 100 sale_denom first_world) × Opens only_fees 100
      (coin_of sale_denom 1000)
      (pos (10 ^ 16))
      10
      "cellarfees"
      "cellarfees"
      first_world
      q
begin_auction-Opens_example =
    begin_auction-Opens only_fees 100 (coin_of sale_denom 1000) (pos (10 ^ 16)) 10 "cellarfees"
      "cellarfees" first_world it_begins

-- A second auction of the same denom.
begins_once : (beginning open_world).0 ≢ ok tt
unfolding of_int add_dec sub_dec mul_dec quo_dec power_dec begin_auction Table.get Table.set
    validate_auction
begins_once h = cc

Reach-IsConsistent_example :
    IsConsistent (end_blocker 110 (submit_bid 101 alice_bid open_world).1).1.store
Reach-IsConsistent_example = Reach-IsConsistent only_fees first_store-IsConsistent (
    next
      (next
        (next here
          (begins 100 (coin_of sale_denom 1000) (pos (10 ^ 16)) 10 "cellarfees" "cellarfees"))
        (bids 101 alice_bid))
      (ends_block 110))

it_is_accepted : (submit_bid 101 alice_bid open_world).0 ≡ ok alice_placed
unfolding of_int add_dec sub_dec mul_dec quo_dec power_dec begin_auction Table.get Table.set
    validate_auction submit_bid prepare_bid minimum_bid fulfil settle validate_bid
it_is_accepted = refl

submit_bid_accepts_example :
    (o : Offer) × Priced alice_bid open_world o
    × (alice_placed ≡ o.bid)
    × (validate_bid alice_placed ≡ none)
    × Settled 101 o.auction o.left alice_placed open_world (submit_bid 101 alice_bid open_world).1
submit_bid_accepts_example = submit_bid_accepts 101 alice_bid open_world alice_placed it_is_accepted

it_is_refused : (submit_bid 101 low_bid open_world).0 ≡ err (wrapped Error.bid_amount_is_too_small)
unfolding of_int add_dec sub_dec mul_dec quo_dec power_dec begin_auction Table.get Table.set
    validate_auction submit_bid prepare_bid minimum_bid fulfil settle validate_bid
it_is_refused = refl

submit_bid_rejects_example : (submit_bid 101 low_bid open_world).1.store ≡ open_world.store
submit_bid_rejects_example =
    submit_bid_rejects 101 low_bid open_world (wrapped Error.bid_amount_is_too_small) it_is_refused

thirty_of_fifty : fulfil (pos 30) (pos 50) (pos 20) ≡ some (pos 30)
unfolding fulfil
thirty_of_fifty = refl

fulfil_bounds_example :
    (pos 30 ≤ℤ pos 30) × (pos 30 ≤ℤ pos 50) × ((pos 20 ≤ℤ pos 30) ⊎ (pos 30 ≡ pos 50))
fulfil_bounds_example = fulfil_bounds (pos 30) (pos 50) (pos 20) (pos 30) thirty_of_fifty

it_finishes : (finish_auction 105 (auction_at 1 100 0) open_world).0 ≡ ok tt
unfolding of_int add_dec sub_dec mul_dec quo_dec power_dec begin_auction Table.get Table.set
    validate_auction submit_bid prepare_bid minimum_bid fulfil settle validate_bid finish_auction
    get_bids_by_auction add_payments Table.delete ◌+ℤ◌
it_finishes = refl

-- The module has never received what this bid is said to have paid.
unpaid_world : World scaled
unpaid_world = record first_world {
  store = record first_store { bids = ((1, 1), alice_placed) ∷ [] };
}

it_fails : (finish_auction 105 (auction_at 1 100 0) unpaid_world).0 ≢ ok tt
unfolding unpaid_world of_int add_dec sub_dec mul_dec quo_dec power_dec begin_auction Table.get
    Table.set validate_auction submit_bid prepare_bid minimum_bid fulfil settle validate_bid
    finish_auction get_bids_by_auction add_payments Table.delete ◌+ℤ◌
it_fails h = cc

prune_ended_exact_example : get_ended_auction 1 (prune_ended 1000 ended_store) ≡ (
    if not (ended_store.params.auction_max_block_age == 0)
      && any
          (λ a. 1 == a.id)
          (stale
            (sub_u64 1000 ended_store.params.auction_max_block_age)
            []
            (reverse (get_ended_auctions ended_store)))
    then none
    else get_ended_auction 1 ended_store)
prune_ended_exact_example = prune_ended_exact 1000 ended_store 1

-- Of two numbers in the order of `compare`, the greater comes second.
compare-lt_of_lt : (m n : ℕ) → m < n → compare m n ≡ Ordering.lt
compare-lt_of_lt m n h = go (compare m n) refl
  where
    go : (o : Ordering) → compare m n ≡ o → compare m n ≡ Ordering.lt
    go Ordering.lt e = e
    go Ordering.eq e = absurd (omega (arith, h, compare-eq m n e))
    go Ordering.gt e = absurd (omega (arith, h, compare-gt m n e))

scaled_swap : CmpSwap scaled
scaled_swap a b h = compare-lt_of_lt _ _ (compare-gt _ _ h)

all_priced : AllPriced open_world
unfolding of_int add_dec sub_dec mul_dec quo_dec power_dec begin_auction Table.get Table.set
    validate_auction
all_priced = ((refl, λ h. cc), tt)

end_blocker-AllPriced_example : AllPriced (end_blocker 110 open_world).1
end_blocker-AllPriced_example = end_blocker-AllPriced scaled_swap 110 open_world all_priced

sold-IsConsistent : IsConsistent sold_world.store
sold-IsConsistent = submit_bid-IsConsistent 101 whole_bid open_world (
    begin_auction-IsConsistent only_fees 100 (coin_of sale_denom 1000) (pos (10 ^ 16)) 10
      "cellarfees" "cellarfees" first_world first_store-IsConsistent)

it_validates : validate_params sold_world.store.params ≡ none
unfolding of_int add_dec sub_dec mul_dec quo_dec power_dec begin_auction Table.get Table.set
    validate_auction submit_bid prepare_bid minimum_bid fulfil settle validate_bid finish_auction
    get_bids_by_auction add_payments Table.delete ◌+ℤ◌ validate_params validate_price_max_block_age
    validate_minimum_sale_tokens_usd_value validate_acceleration_rate
it_validates = refl

load-export_example :
    init_genesis true
      (export_genesis sold_world.store)
      (record { store = bare default_params; bank = sold_world.bank })
    ≡ (ok tt, record { store = sold_world.store; bank = sold_world.bank })
unfolding of_int add_dec sub_dec mul_dec quo_dec power_dec begin_auction Table.get Table.set
    validate_auction submit_bid prepare_bid minimum_bid fulfil settle validate_bid finish_auction
    get_bids_by_auction add_payments Table.delete ◌+ℤ◌
load-export_example =
    load-export sold_world.store default_params sold_world.bank sold-IsConsistent it_validates
      ((refl, omega arith), tt) ((refl, tt), (tt, tt)) (refl, (refl, tt))

it_is_passed : (handle_set_token_prices 120 new_prices first_world).0 ≡ ok tt
unfolding of_int add_dec sub_dec mul_dec quo_dec power_dec handle_set_token_prices validate_proposal
    validate_prices validate_proposed_price
it_is_passed = refl

handle_set_token_prices_stores_example :
    get_token_price sale_denom (handle_set_token_prices 120 new_prices first_world).1.store
    ≡ expected 120 new_prices.token_prices sale_denom (get_token_price sale_denom first_store)
handle_set_token_prices_stores_example =
    handle_set_token_prices_stores 120 new_prices first_world sale_denom it_is_passed
