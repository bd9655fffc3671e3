-- ===== src/Auction/Prices/Stored.antt =====
-- What an accepted token price proposal leaves in the store.
use text.Mathlib.TextEquality.{eq_iff}
use sommelier.Base.{
  ℕ, ◌≡◌, refl, String, Bool, true, false, Option, none, some, List, [], ◌∷◌, arith, any, ◌==◌,
  string_eq, Option-cases, inl, inr, if◌then◌else◌,
}
use sommelier.Base.Exec.{ok}
use sommelier.Base.Table.{get-set}
use sommelier.Base.Table.Ordered.{text_key}
use sommelier.Sdk.{Sdk}
use sommelier.Auction.Types.{TokenPrice, ProposedTokenPrice, Auctions, World}
use sommelier.Auction.Store.{get_token_price, set_token_price}
use sommelier.Auction.Prices.{
  SetTokenPricesProposal, stored_price, validate_prices, validate_proposal, set_prices,
  handle_set_token_prices,
}

module _ ⦃sdk : Sdk⦄ where
  abbrev pub proposed : String → List (ProposedTokenPrice sdk.Decimal) → Bool
  proposed d ts = any (λ t. t.denom == d) ts

  -- A proposed price as it ends up in the store.
  abbrev pub dated : ℕ → ProposedTokenPrice sdk.Decimal → TokenPrice sdk.Decimal
  dated height t = record {
    denom = t.denom;
    exponent = 0;
    usd_price = t.usd_price;
    last_updated_block = height;
  }

  -- The price of a denom after a proposal: the proposed one, or else the old one.
  abbrev pub expected :
      ℕ
      → List (ProposedTokenPrice sdk.Decimal)
      → String
      → Option (TokenPrice sdk.Decimal)
      → Option (TokenPrice sdk.Decimal)
  expected height [] d old = old
  expected height (t ∷ ts) d old =
      if t.denom == d then some (dated height t) else expected height ts d old

  expected_old :
      (height : ℕ) (ts : List (ProposedTokenPrice sdk.Decimal)) (d : String)
      (old : Option (TokenPrice sdk.Decimal))
      → proposed d ts ≡ false
      → expected height ts d old ≡ old
  expected_old height [] d old h = refl
  expected_old height (t ∷ ts) d old h = ground (arith, expected_old height ts d old)

  -- Accepted prices are of different denoms.
  not_again :
      (d : String) (seen : List String) (ts : List (ProposedTokenPrice sdk.Decimal))
      → any (λ e. e == d) seen ≡ true
      → validate_prices seen ts ≡ none
      → proposed d ts ≡ false
  unfolding validate_prices
  not_again d seen [] m h = refl
  not_again d seen (t ∷ ts) m h = ground (arith, eq_iff t.denom d, not_again d (t.denom ∷ seen) ts)

  later :
      (t : ProposedTokenPrice sdk.Decimal) (seen : List String)
      (ts : List (ProposedTokenPrice sdk.Decimal))
      → validate_prices seen (t ∷ ts) ≡ none
      → validate_prices (t.denom ∷ seen) ts ≡ none
  unfolding validate_prices
  later t seen ts h = ground arith

  set_prices-expected :
      (height : ℕ) (seen : List String) (ts : List (ProposedTokenPrice sdk.Decimal)) (d : String)
      (s : Auctions sdk.Decimal)
      → validate_prices seen ts ≡ none
      → get_token_price d (set_prices height ts s) ≡ expected height ts d (get_token_price d s)
  unfolding set_prices
  set_prices-expected height seen [] d s h = refl
  set_prices-expected height seen (t ∷ ts) d s h =
      let p = stored_price height t in
      ground (
        arith,
        set_prices-expected height (t.denom ∷ seen) ts d (set_token_price p s) (later t seen ts h),
        get-set t.denom d p s.token_prices,
        eq_iff t.denom d,
        eq_iff d t.denom,
        eq_iff t.denom t.denom,
        not_again d (t.denom ∷ seen) ts,
        later t seen ts h,
        expected_old height ts d (some p),
      )

  accepted_prices :
      (p : SetTokenPricesProposal sdk.Decimal)
      → validate_proposal p ≡ none
      → validate_prices [] p.token_prices ≡ none
  unfolding validate_proposal
  accepted_prices p h = ground arith

  -- If a proposal is accepted, the price of each denom is afterwards the proposed one, dated with the
  -- block's height and with the exponent 0 whatever the proposal says, or else what it was.
  pub handle_set_token_prices_stores :
      (height : ℕ) (p : SetTokenPricesProposal sdk.Decimal) (w : World sdk) (d : String)
      → (handle_set_token_prices height p w).0 ≡ ok tt
      → get_token_price d (handle_set_token_prices height p w).1.store
        ≡ expected height p.token_prices d (get_token_price d w.store)
  unfolding handle_set_token_prices
  handle_set_token_prices_stores height p w d h = elim (Option-cases (validate_proposal p)) [
    | inr (e, refused) ↦ absurd (ground arith)
    | inl valid ↦
        rw valid (set_prices-expected height [] p.token_prices d w.store (accepted_prices p valid))
  ]
