-- ===== src/Auction/EndBlock.antt =====
-- `EndBlocker` of x/auction/keeper/abci.go: the prices fall, and old auctions are pruned.
pub mod Pricing
pub mod Pruning
use mathlib.Core.List.{reverse}
use sommelier.Base.{
  ℕ, ◌%◌, String, Bool, true, false, ◌&&◌, Option, none, some, List, [], ◌∷◌, ltb, leb, ◌==◌,
  nat_eq, string_eq, any, last, if◌then◌else◌,
}
use sommelier.Base.Word.{sub_u64, abs_int64}
use sommelier.Base.Exec.{◌>>=◌, ◌>>◌, pure, abort, gets, must, for_each}
use sommelier.Sdk.{Sdk, lte, zero_dec}
use sommelier.Auction.Types.{Auction, Auctions, Bid}
use sommelier.Auction.Store.{
  get_active_auctions, get_ended_auctions, get_bids_by_auction, set_active_auction, delete_bid,
  delete_ended_auction,
}
use sommelier.Auction.Begin.{Action, update_store}
use sommelier.Auction.Finish.{finish_auction}

module _ ⦃sdk : Sdk⦄ where
  -- Whether the most recent bid falls in the last interval.
  unfoldable pub bid_seen : ℕ → ℕ → List (Bid sdk.Decimal) → Bool
  unfolding sub_u64
  bid_seen height interval bids = elim (last bids) [
    | none ↦ false
    | some b ↦ leb (sub_u64 height interval) b.block_height
  ]

  -- The decrease rate of this interval: reset after a bid, or else accelerated.
  unfoldable pub next_rate :
      ℕ → sdk.Decimal → List (Bid sdk.Decimal) → Auction sdk.Decimal → sdk.Decimal
  unfolding bid_seen
  next_rate height acceleration bids a =
      if bid_seen height a.price_decrease_block_interval bids
      then a.initial_price_decrease_rate
      else sdk.mul a.current_price_decrease_rate (sdk.add (sdk.dec_str "1.0") acceleration)

  abbrev pub with_rate : Auction sdk.Decimal → sdk.Decimal → Auction sdk.Decimal
  with_rate a rate = record a { current_price_decrease_rate = rate }

  abbrev pub with_price : Auction sdk.Decimal → sdk.Decimal → Auction sdk.Decimal
  with_price a price = record a { current_unit_price_in_usomm = price }

  -- The price that an auction falls to, at its current rate.
  abbrev pub lowered : Auction sdk.Decimal → sdk.Decimal
  lowered a =
      sdk.sub a.current_unit_price_in_usomm
        (sdk.mul a.initial_unit_price_in_usomm a.current_price_decrease_rate)

  -- A price that is not positive ends the auction.
  unfoldable pub lower_price : ℕ → Auction sdk.Decimal → Action (Unit {0})
  lower_price height a =
      if lte (lowered a) zero_dec
      then must (finish_auction height a)
      else update_store (set_active_auction (with_price a (lowered a)))

  -- The `%` of int64 is 0 exactly if that of the absolute values is; by 0 it panics.
  unfoldable pub update_price : ℕ → Auction sdk.Decimal → Action (Unit {0})
  unfolding lower_price next_rate get_bids_by_auction abs_int64 sub_u64
  update_price height a =
      if height == a.start_block
      then pure tt
      else if a.price_decrease_block_interval == 0
      then abort
      else if abs_int64 (sub_u64 height a.start_block) % abs_int64 a.price_decrease_block_interval
          == 0
      then (do
        p ← gets (λ w. w.store.params)
        bids ← gets (λ w. get_bids_by_auction a.id w.store)
        lower_price height
            (with_rate a (next_rate height p.auction_price_decrease_acceleration_rate bids a)))
      else pure tt

  unfoldable pub delete_bids :
      ℕ → List (Bid sdk.Decimal) → Auctions sdk.Decimal → Auctions sdk.Decimal
  delete_bids id [] s = s
  delete_bids id (b ∷ bids) s = delete_bids id bids (delete_bid id b.id s)

  -- An ended auction and its bids.
  unfoldable pub drop_auction : Auction sdk.Decimal → Auctions sdk.Decimal → Auctions sdk.Decimal
  unfolding delete_bids get_bids_by_auction
  drop_auction a s = delete_ended_auction a.id (delete_bids a.id (get_bids_by_auction a.id s) s)

  -- Old enough to prune, if its denom has been met.
  unfoldable pub prunable : ℕ → ℕ → List String → Auction sdk.Decimal → Bool
  unfolding sub_u64
  prunable height age denoms_found a =
      any (λ d. d == a.starting_tokens_for_sale.denom) denoms_found
      && ltb a.end_block (sub_u64 height age)

  -- The loop over the ended auctions, the latest first.
  unfoldable pub prune :
      ℕ → ℕ → List String → List (Auction sdk.Decimal) → Auctions sdk.Decimal → Auctions sdk.Decimal
  unfolding drop_auction prunable
  prune height age denoms_found [] s = s
  prune height age denoms_found (a ∷ as_left) s =
      let dropped = prune height age denoms_found as_left (drop_auction a s) in
      let kept = prune height age (a.starting_tokens_for_sale.denom ∷ denoms_found) as_left s in
      if prunable height age denoms_found a then dropped else kept

  unfoldable pub prune_ended : ℕ → Auctions sdk.Decimal → Auctions sdk.Decimal
  unfolding prune
  prune_ended height s =
      if s.params.auction_max_block_age == 0
      then s
      else prune height s.params.auction_max_block_age [] (reverse (get_ended_auctions s)) s

  unfoldable pub end_blocker : ℕ → Action (Unit {0})
  unfolding update_price prune_ended for_each
  end_blocker height = do
    auctions ← gets (λ w. get_active_auctions w.store)
    for_each (update_price height) auctions
    update_store (prune_ended height)
