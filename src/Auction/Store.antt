-- ===== src/Auction/Store.antt =====
-- The accessors of x/auction/keeper/keeper.go. A `get` of the code returns a value and whether it
-- was found; an iterator is the list of the values that it meets.
use sommelier.Base.{ℕ, String, Option, List, [], ◌∷◌, ◌==◌, nat_eq, if◌then◌else◌}
use sommelier.Base.Table
use sommelier.Base.Table.{values}
use sommelier.Base.Table.Ordered.{nat_key, pair_key, text_key}
use sommelier.Auction.Types.{Auction, Auctions, Bid, TokenPrice, Params}

module _ {Decimal : Type 0} where
  abbrev pub get_active_auction : ℕ → Auctions Decimal → Option (Auction Decimal)
  get_active_auction id s = Table.get id s.active

  abbrev pub get_ended_auction : ℕ → Auctions Decimal → Option (Auction Decimal)
  get_ended_auction id s = Table.get id s.ended

  abbrev pub delete_active_auction : ℕ → Auctions Decimal → Auctions Decimal
  delete_active_auction id s = record s { active = Table.delete id s.active }

  abbrev pub delete_ended_auction : ℕ → Auctions Decimal → Auctions Decimal
  delete_ended_auction id s = record s { ended = Table.delete id s.ended }

  abbrev pub delete_bid : ℕ → ℕ → Auctions Decimal → Auctions Decimal
  delete_bid auction_id id s = record s { bids = Table.delete (auction_id, id) s.bids }

  abbrev pub get_active_auctions : Auctions Decimal → List (Auction Decimal)
  get_active_auctions s = values s.active

  abbrev pub get_ended_auctions : Auctions Decimal → List (Auction Decimal)
  get_ended_auctions s = values s.ended

  abbrev pub set_active_auction : Auction Decimal → Auctions Decimal → Auctions Decimal
  set_active_auction a s = record s { active = Table.set a.id a s.active }

  abbrev pub set_ended_auction : Auction Decimal → Auctions Decimal → Auctions Decimal
  set_ended_auction a s = record s { ended = Table.set a.id a s.ended }

  abbrev pub get_bids : Auctions Decimal → List (Bid Decimal)
  get_bids s = values s.bids

  -- The values under the keys that begin with an auction's id.
  unfoldable pub bids_under : ℕ → List ((ℕ × ℕ) × Bid Decimal) → List (Bid Decimal)
  bids_under id [] = []
  bids_under id ((k, b) ∷ t) = let rest = bids_under id t in if k.0 == id then b ∷ rest else rest

  unfoldable pub get_bids_by_auction : ℕ → Auctions Decimal → List (Bid Decimal)
  unfolding bids_under
  get_bids_by_auction id s = bids_under id s.bids

  abbrev pub get_bid : ℕ → ℕ → Auctions Decimal → Option (Bid Decimal)
  get_bid auction_id id s = Table.get (auction_id, id) s.bids

  abbrev pub set_bid : Bid Decimal → Auctions Decimal → Auctions Decimal
  set_bid b s = record s { bids = Table.set (b.auction_id, b.id) b s.bids }

  abbrev pub get_token_prices : Auctions Decimal → List (TokenPrice Decimal)
  get_token_prices s = values s.token_prices

  abbrev pub get_token_price : String → Auctions Decimal → Option (TokenPrice Decimal)
  get_token_price denom s = Table.get denom s.token_prices

  abbrev pub set_token_price : TokenPrice Decimal → Auctions Decimal → Auctions Decimal
  set_token_price t s = record s { token_prices = Table.set t.denom t s.token_prices }

  abbrev pub set_params : Params Decimal → Auctions Decimal → Auctions Decimal
  set_params p s = record s { params = p }

  abbrev pub set_last_auction_id : ℕ → Auctions Decimal → Auctions Decimal
  set_last_auction_id id s = record s { last_auction_id = id }

  abbrev pub set_last_bid_id : ℕ → Auctions Decimal → Auctions Decimal
  set_last_bid_id id s = record s { last_bid_id = id }
