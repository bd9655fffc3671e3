-- ===== src/Auction/Genesis.antt =====
-- x/auction/keeper/genesis.go and x/auction/types/genesis.go.
pub mod Roundtrip
use sommelier.Base.{ℕ, Bool, not, List, [], ◌∷◌, ◌++◌, ltb, if◌then◌else◌}
use sommelier.Base.Exec.{◌>>=◌, ◌>>◌, abort, when}
use sommelier.Sdk.{Sdk}
use sommelier.Auction.Types.{Auction, Bid, TokenPrice, Params, Auctions}
use sommelier.Auction.Validate.{
  Check, then_check, check_all, validate_auction, validate_bid, validate_token_price,
}
use sommelier.Auction.Params.{validate_params, default_params}
use sommelier.Auction.Store.{
  get_active_auctions, get_ended_auctions, get_bids, get_token_prices, set_params,
  set_active_auction, set_ended_auction, set_bid, set_token_price, set_last_auction_id,
  set_last_bid_id,
}
use sommelier.Auction.Begin.{Action, update_store, must_pass}

pub record GenesisState (Decimal : Type 0) : Type 0 where
  pub params : Params Decimal
  pub auctions : List (Auction Decimal)
  pub bids : List (Bid Decimal)
  pub token_prices : List (TokenPrice Decimal)
  pub last_auction_id : ℕ
  pub last_bid_id : ℕ

module _ {Decimal : Type 0} where
  -- One loop of `InitGenesis`: a write for each entry.
  unfoldable pub set_each :
      {A : Type 0}
      → (A → Auctions Decimal → Auctions Decimal)
      → List A
      → Auctions Decimal
      → Auctions Decimal
  set_each f [] s = s
  set_each f (x ∷ xs) s = set_each f xs (f x s)

  -- An auction with an end block has ended.
  abbrev pub file_auction : Auction Decimal → Auctions Decimal → Auctions Decimal
  file_auction a s = if ltb 0 a.end_block then set_ended_auction a s else set_active_auction a s

  -- The writes after the parameters'.
  unfoldable pub load_genesis : GenesisState Decimal → Auctions Decimal → Auctions Decimal
  unfolding set_each
  load_genesis gs s = set_last_bid_id gs.last_bid_id (
      set_last_auction_id gs.last_auction_id (
        set_each set_token_price gs.token_prices
          (set_each set_bid gs.bids (set_each file_auction gs.auctions s))))

  unfoldable pub export_genesis : Auctions Decimal → GenesisState Decimal
  export_genesis s = record {
    params = s.params;
    auctions = get_active_auctions s ++ get_ended_auctions s;
    bids = get_bids s;
    token_prices = get_token_prices s;
    last_auction_id = s.last_auction_id;
    last_bid_id = s.last_bid_id;
  }

module _ ⦃sdk : Sdk⦄ where
  unfoldable pub default_genesis : GenesisState sdk.Decimal
  unfolding default_params
  default_genesis = record {
    params = default_params;
    auctions = [];
    bids = [];
    token_prices = [];
    last_auction_id = 0;
    last_bid_id = 0;
  }

  unfoldable pub validate_genesis : GenesisState sdk.Decimal → Check
  unfolding validate_params
  validate_genesis gs = then_check (validate_params gs.params) (
      then_check (check_all validate_auction gs.auctions) (
        then_check (check_all validate_bid gs.bids)
          (check_all validate_token_price gs.token_prices)))

  -- The subspace panics at a parameter that does not validate. `account_found` says whether the module's
  -- account is set.
  unfoldable pub init_genesis : Bool → GenesisState sdk.Decimal → Action (Unit {0})
  unfolding load_genesis
  init_genesis account_found gs = do
    must_pass (validate_params gs.params)
    update_store (set_params gs.params)
    when (not account_found) abort
    update_store (load_genesis gs)
