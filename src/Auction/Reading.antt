-- ===== src/Auction/Reading.antt =====
-- The answers of x/auction/keeper/query_server.go. A page of a list is what `paginate` picks, which is
-- `query.FilteredPaginate` of the SDK.
use sommelier.Base.{ℕ, Option, List}
use sommelier.Base.Exec.{gets}
use sommelier.Queries.{Query, lookup, page_of}
use sommelier.Auction.Types.{Auction, Auctions, Bid, Params}
use sommelier.Auction.Store.{
  get_active_auction, get_ended_auction, get_active_auctions, get_ended_auctions, get_bid,
  get_bids_by_auction,
}

module _ {Decimal : Type 0} where
  abbrev pub query_params : Query (Auctions Decimal) (Params Decimal)
  query_params = gets (λ s. s.params)

  -- The ids are 0 where the request is nil.
  abbrev pub query_active_auction : ℕ → Query (Auctions Decimal) (Auction Decimal)
  query_active_auction id = lookup (get_active_auction id)

  abbrev pub query_ended_auction : ℕ → Query (Auctions Decimal) (Auction Decimal)
  query_ended_auction id = lookup (get_ended_auction id)

  abbrev pub query_active_auctions : Query (Auctions Decimal) (List (Auction Decimal))
  query_active_auctions = gets get_active_auctions

  abbrev pub query_ended_auctions :
      {Page : Type 0}
      → (List (Auction Decimal) → Option (List (Auction Decimal) × Page))
      → Query (Auctions Decimal) (List (Auction Decimal) × Page)
  query_ended_auctions paginate = page_of paginate get_ended_auctions

  -- The auction's id comes first.
  abbrev pub query_bid : ℕ → ℕ → Query (Auctions Decimal) (Bid Decimal)
  query_bid auction_id id = lookup (get_bid auction_id id)

  abbrev pub query_bids_by_auction :
      {Page : Type 0}
      → (List (Bid Decimal) → Option (List (Bid Decimal) × Page))
      → ℕ
      → Query (Auctions Decimal) (List (Bid Decimal) × Page)
  query_bids_by_auction paginate id = page_of paginate (get_bids_by_auction id)
