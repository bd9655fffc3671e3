-- ===== src/Auction/Tests.antt =====
-- A small chain on which the theorems about the auction module are run: one sale token, whose price
-- is 2 usomm, one auction of 1000 of it and one bidder.
pub mod Runs
use sommelier.Base.{ℕ, ◌*◌, ◌/◌, ◌^◌, ◌≡◌, refl, String, none, some, [], ◌∷◌, Option, arith}
use sommelier.Base.Int.{ℤ, pos}
use sommelier.Base.Exec.{Outcome, ok}
use sommelier.Base.Table
use sommelier.Base.Table.Ordered.{nat_key, pair_key, text_key}
use sommelier.Sdk.{Coin, Sdk}
use sommelier.Sdk.Scaled.{scaled, unit}
use sommelier.Auction.Types.{
  Auction, Auctions, Bid, Params, TokenPrice, ProposedTokenPrice, World, Keeper, MsgSubmitBid,
  Error, base_coin_unit,
}
use sommelier.Auction.Begin.{begin_auction}
use sommelier.Auction.Bidding.{submit_bid}
use sommelier.Auction.Prices.{SetTokenPricesProposal}
use sommelier.Auction.Invariant.{IsConsistent}

abbrev pub sale_denom : String
sale_denom = "gravity0xaa"

abbrev pub coin_of : String → ℕ → Coin
coin_of denom n = record { denom = denom; amount = pos n }

abbrev pub small_params : Params ℤ
small_params = record {
  price_max_block_age = 100;
  minimum_bid_in_usomm = 10;
  minimum_sale_tokens_usd_value = pos unit;
  auction_max_block_age = 100;
  auction_price_decrease_acceleration_rate = pos (10 ^ 15);
  minimum_auction_height = 0;
}

abbrev pub price_of : String → ℕ → TokenPrice ℤ
price_of denom usd = record {
  denom = denom;
  exponent = 6;
  usd_price = pos (usd * unit);
  last_updated_block = 90;
}

abbrev pub proposed_price : String → ℕ → ProposedTokenPrice ℤ
proposed_price denom usd = record { denom = denom; exponent = 6; usd_price = pos (usd * unit) }

abbrev pub first_store : Auctions ℤ
first_store = record {
  params = small_params;
  active = [];
  ended = [];
  bids = [];
  token_prices =
      (sale_denom, price_of sale_denom 2) ∷ (base_coin_unit, price_of base_coin_unit 1) ∷ [];
  last_auction_id = 0;
  last_bid_id = 0;
}

abbrev pub first_world : World scaled
first_world = record {
  store = first_store;
  bank = ("cellarfees", sale_denom, 1000) ∷ ("alice", base_coin_unit, 5000) ∷ [];
}

abbrev pub only_fees : Keeper
only_fees = record {
  funding_module_accounts = "cellarfees" ∷ [];
  proceeds_module_accounts = "cellarfees" ∷ [];
}

-- An auction of 1000 at height 100, at a rate of 0.01 every 10 blocks.
abbrev pub beginning : World scaled → Outcome Error (Unit {0}) × World scaled
beginning =
    begin_auction only_fees 100 (coin_of sale_denom 1000) (pos (10 ^ 16)) 10 "cellarfees"
      "cellarfees"

-- The auction is open.
abbrev pub open_world : World scaled
open_world = (beginning first_world).1

-- Alice bids 100 usomm for 20 of the tokens at least.
abbrev pub alice_bid : MsgSubmitBid
alice_bid = record {
  auction_id = 1;
  signer = "alice";
  max_bid_in_usomm = coin_of base_coin_unit 100;
  sale_token_minimum_amount = coin_of sale_denom 20;
}

pub first_store-IsConsistent : IsConsistent first_store
unfolding Table.get
first_store-IsConsistent = record {
  active_ordered = tt;
  ended_ordered = tt;
  bids_ordered = tt;
  active_ids = tt;
  ended_ids = tt;
  bid_ids = tt;
  auction_bound = omega arith;
  bid_bound = omega arith;
  apart = λ i a h. refl;
  one_per_denom = λ i j a b h _ _. cc;
}

-- A bid for everything that is on sale.
abbrev pub whole_bid : MsgSubmitBid
whole_bid = record alice_bid { max_bid_in_usomm = coin_of base_coin_unit 4000 }

-- A bid below the least one.
abbrev pub low_bid : MsgSubmitBid
low_bid = record alice_bid { max_bid_in_usomm = coin_of base_coin_unit 9 }

-- The bid that `alice_bid` is recorded as.
abbrev pub alice_placed : Bid ℤ
alice_placed = record {
  id = 1;
  auction_id = 1;
  bidder = "alice";
  max_bid_in_usomm = coin_of base_coin_unit 100;
  sale_token_minimum_amount = coin_of sale_denom 20;
  total_fulfilled_sale_tokens = coin_of sale_denom 50;
  sale_token_unit_price_in_usomm = pos (2 * unit);
  total_usomm_paid = coin_of base_coin_unit 100;
  block_height = 101;
}

-- Alice has bought everything, so that the auction has ended.
abbrev pub sold_world : World scaled
sold_world = (submit_bid 101 whole_bid open_world).1

-- The auction as it is opened, and two later ones of other ids.
abbrev pub auction_at : ℕ → ℕ → ℕ → Auction ℤ
auction_at id start end = record {
  id = id;
  starting_tokens_for_sale = coin_of sale_denom 1000;
  start_block = start;
  end_block = end;
  initial_price_decrease_rate = pos (10 ^ 16);
  current_price_decrease_rate = pos (10 ^ 16);
  price_decrease_block_interval = 10;
  initial_unit_price_in_usomm = pos (2 * unit);
  current_unit_price_in_usomm = pos (2 * unit);
  remaining_tokens_for_sale = coin_of sale_denom 1000;
  funding_module_account = "cellarfees";
  proceeds_module_account = "cellarfees";
}

-- Two auctions that have ended, of which the first is old at height 1000.
abbrev pub ended_store : Auctions ℤ
ended_store = record first_store {
  ended = (1, auction_at 1 100 200) ∷ (2, auction_at 2 300 400) ∷ [];
  last_auction_id = 2;
}

-- A proposal with a new price for each denom.
abbrev pub new_prices : SetTokenPricesProposal ℤ
new_prices = record {
  title = "prices";
  description = "new ones";
  token_prices = proposed_price sale_denom 3 ∷ proposed_price base_coin_unit 2 ∷ [];
}
