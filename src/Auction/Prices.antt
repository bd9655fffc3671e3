-- ===== src/Auction/Prices.antt =====
-- The governance proposal that sets token prices: x/auction/types/proposal.go and
-- x/auction/keeper/proposal_handler.go.
pub mod Stored
use sommelier.Base.{ℕ, String, not, none, some, List, [], ◌∷◌, ◌==◌, string_eq, any, if◌then◌else◌}
use sommelier.Base.Exec.{wrapped, foreign, ◌>>=◌, ◌>>◌}
use sommelier.Sdk.{Sdk}
use sommelier.Auction.Types.{TokenPrice, ProposedTokenPrice, Auctions, Error}
use sommelier.Auction.Validate.{Check, then_check, validate_proposed_price}
use sommelier.Auction.Store.{set_token_price}
use sommelier.Auction.Begin.{Action, update_store}
use sommelier.Auction.Bidding.{must_hold}

pub record SetTokenPricesProposal (Decimal : Type 0) : Type 0 where
  pub title : String
  pub description : String
  pub token_prices : List (ProposedTokenPrice Decimal)

module _ ⦃sdk : Sdk⦄ where
  -- The loop over the prices, with the denoms that it has met.
  unfoldable pub validate_prices : List String → List (ProposedTokenPrice sdk.Decimal) → Check
  validate_prices seen [] = none
  validate_prices seen (t ∷ rest) =
      if any (λ d. d == t.denom) seen
      then some (wrapped Error.token_price_updated_more_than_once)
      else then_check (validate_proposed_price t) (validate_prices (t.denom ∷ seen) rest)

  unfoldable pub validate_proposal : SetTokenPricesProposal sdk.Decimal → Check
  validate_proposal p =
      if not (sdk.validate_abstract p.title p.description)
      then some foreign
      else elim p.token_prices [
        | [] ↦ some (wrapped Error.proposal_must_have_at_least_one_price)
        | _ ↦ validate_prices [] p.token_prices
      ]

  -- The price that is stored: the proposed exponent is not copied, so that it is 0.
  abbrev pub stored_price : ℕ → ProposedTokenPrice sdk.Decimal → TokenPrice sdk.Decimal
  stored_price height t = record {
    denom = t.denom;
    exponent = 0;
    usd_price = t.usd_price;
    last_updated_block = height;
  }

  unfoldable pub set_prices :
      ℕ → List (ProposedTokenPrice sdk.Decimal) → Auctions sdk.Decimal → Auctions sdk.Decimal
  set_prices height [] s = s
  set_prices height (t ∷ rest) s =
      set_prices height rest (set_token_price (stored_price height t) s)

  unfoldable pub handle_set_token_prices :
      ℕ → SetTokenPricesProposal sdk.Decimal → Action (Unit {0})
  handle_set_token_prices height p = do
    must_hold (validate_proposal p)
    update_store (set_prices height p.token_prices)
