-- ===== src/Auction/Invariant/Chain.antt =====
-- The histories of the auction module: any sequence of its operations, with the bank and the
-- parameters changed from outside in between.
use sommelier.Base.{ℕ, String}
use sommelier.Base.Table.Ordered.{nat_key}
use sommelier.Sdk.{Coin, Sdk}
use sommelier.Auction.Types.{World, Keeper, MsgSubmitBid, Params}
use sommelier.Auction.Store.{set_params}
use sommelier.Auction.Begin.{begin_auction}
use sommelier.Auction.Bidding.{submit_bid}
use sommelier.Auction.EndBlock.{end_blocker}
use sommelier.Auction.Prices.{SetTokenPricesProposal, handle_set_token_prices}
use sommelier.Auction.Invariant.{IsConsistent}
use sommelier.Auction.Invariant.Operations.{begin_auction-IsConsistent, submit_bid-IsConsistent}
use sommelier.Auction.Invariant.Blocks.{
  end_blocker-IsConsistent, handle_set_token_prices-IsConsistent,
}

module _ ⦃sdk : Sdk⦄ (k : Keeper) where
  -- One call, whether it succeeds, errs or panics, or a change from outside.
  pub data Step (w : World sdk) : World sdk → Type 0 where
    begins :
        (height : ℕ) (c : Coin) (rate : sdk.Decimal) (interval : ℕ) (funding proceeds : String)
        → Step w (begin_auction k height c rate interval funding proceeds w).1
    bids : (height : ℕ) (m : MsgSubmitBid) → Step w (submit_bid height m w).1
    ends_block : (height : ℕ) → Step w (end_blocker height w).1
    sets_prices :
        (height : ℕ) (p : SetTokenPricesProposal sdk.Decimal)
        → Step w (handle_set_token_prices height p w).1
    governed : (p : Params sdk.Decimal) → Step w (record w { store = set_params p w.store })
    moves_coins : (b : sdk.Bank) → Step w (record w { bank = b })

  pub data Reach (w : World sdk) : World sdk → Type 0 where
    here : Reach w w
    next : {u v : World sdk} → Reach w u → Step u v → Reach w v

  pub Step-IsConsistent : {w v : World sdk} → Step w v → IsConsistent w.store → IsConsistent v.store
  Step-IsConsistent {w} (begins height c rate interval funding proceeds) h =
      begin_auction-IsConsistent k height c rate interval funding proceeds w h
  Step-IsConsistent {w} (bids height m) h = submit_bid-IsConsistent height m w h
  Step-IsConsistent {w} (ends_block height) h = end_blocker-IsConsistent height w h
  Step-IsConsistent {w} (sets_prices height p) h = handle_set_token_prices-IsConsistent height p w h
  Step-IsConsistent {w} (governed p) h = record {
    active_ordered = h.active_ordered;
    ended_ordered = h.ended_ordered;
    bids_ordered = h.bids_ordered;
    active_ids = h.active_ids;
    ended_ids = h.ended_ids;
    bid_ids = h.bid_ids;
    auction_bound = h.auction_bound;
    bid_bound = h.bid_bound;
    apart = h.apart;
    one_per_denom = h.one_per_denom;
  }
  Step-IsConsistent {w} (moves_coins b) h = h

  -- Whatever the sequence of calls, from a consistent store only consistent ones are reached: the
  -- tables are keyed by the ids of what they hold, no id passes the last one given out, no auction is
  -- active and ended at once, and no two active auctions are of one denom.
  pub Reach-IsConsistent :
      {w v : World sdk} → IsConsistent w.store → Reach w v → IsConsistent v.store
  Reach-IsConsistent h here = h
  Reach-IsConsistent h (next r s) = Step-IsConsistent s (Reach-IsConsistent h r)
