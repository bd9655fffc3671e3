-- ===== src/Auction/Begin/Opening.antt =====
-- What a call of `BeginAuction` does, by how it ends.
use sommelier.Base.{
  ℕ, ◌+◌, ◌%◌, ◌^◌, ◌<◌, String, true, false, ◌≡◌, ◌≢◌, inl, inr, none, some, any, ◌==◌, string_eq,
  arith, Option-cases,
}
use sommelier.Base.Exec.{Outcome, ok, err, panic}
use sommelier.Sdk.{Coin, Sdk}
use sommelier.Auction.Types.{Auction, TokenPrice, World, Keeper, Error, base_coin_unit}
use sommelier.Auction.Validate.{validate_auction}
use sommelier.Auction.Store.{get_token_price, set_active_auction, set_last_auction_id}
use sommelier.Auction.Begin.{
  launch, begin_auction, opened, on_sale, price_in_usomm, fresh_price, token_price_too_old,
}

module _ ⦃sdk : Sdk⦄ where
  -- How the writing part of `BeginAuction` leaves the store.
  abbrev pub Launched :
      Auction sdk.Decimal → World sdk → Outcome Error (Unit {0}) × World sdk → Type 0
  Launched a w (ok _, w') =
      (w'.store ≡ set_last_auction_id a.id (set_active_auction a w.store))
      × (validate_auction a ≡ none)
      × (on_sale a.starting_tokens_for_sale.denom w.store ≡ false)
  Launched a w (err _, w') = w'.store ≡ w.store
  Launched a w (panic, w') = w'.store ≡ w.store

  pub launch-Launched : (a : Auction sdk.Decimal) (w : World sdk) → Launched a w (launch a w)
  unfolding launch
  launch-Launched a w = ground arith

  -- What a new auction is opened with: the two prices, each fresh, and what they come to.
  pub record Quote (height : ℕ) (denom : String) (w : World sdk) : Type 0 where
    pub sale : TokenPrice sdk.Decimal
    pub usomm : TokenPrice sdk.Decimal
    pub price : sdk.Decimal
    pub sale_stored : get_token_price denom w.store ≡ some sale
    pub usomm_stored : get_token_price base_coin_unit w.store ≡ some usomm
    pub sale_fresh : token_price_too_old height w.store.params sale ≡ false
    pub usomm_fresh : token_price_too_old height w.store.params usomm ≡ false
    pub priced : price_in_usomm sale usomm ≡ some price

module _ ⦃sdk : Sdk⦄ (k : Keeper) (height : ℕ) (c : Coin) (rate : sdk.Decimal) (interval : ℕ)
    (funding proceeds : String) (w : World sdk) where
  abbrev pub opening : sdk.Decimal → Auction sdk.Decimal
  opening price =
      opened ((w.store.last_auction_id + 1) % 2 ^ 32) height c rate interval price funding proceeds

  pub begin_auction-Quote :
      (begin_auction k height c rate interval funding proceeds w).0 ≡ ok tt → Quote height c.denom w
  unfolding begin_auction fresh_price
  begin_auction-Quote h = elim (Option-cases (get_token_price c.denom w.store)) [
    | inl e ↦ absurd (ground arith)
    | inr (sale, e) ↦ elim (Option-cases (get_token_price base_coin_unit w.store)) [
      | inl e' ↦ absurd (ground arith)
      | inr (usomm, e') ↦ elim (Option-cases (price_in_usomm sale usomm)) [
        | inl e'' ↦ absurd (ground arith)
        | inr (price, e'') ↦ record {
          sale = sale;
          usomm = usomm;
          price = price;
          sale_stored = e;
          usomm_stored = e';
          sale_fresh = ground arith;
          usomm_fresh = ground arith;
          priced = e'';
        }
      ]
    ]
  ]

  -- What a successful call has checked and written, at the price that it quotes.
  abbrev pub Opens : Quote height c.denom w → Type 0
  Opens q =
      ((begin_auction k height c rate interval funding proceeds w).1.store
        ≡ set_last_auction_id (opening q.price).id (set_active_auction (opening q.price) w.store))
      × (validate_auction (opening q.price) ≡ none)
      × (on_sale c.denom w.store ≡ false)
      × (w.store.params.minimum_auction_height < height)
      × (any (λ m. m == funding) k.funding_module_accounts ≡ true)
      × (any (λ m. m == proceeds) k.proceeds_module_accounts ≡ true)

  -- If `BeginAuction` succeeds, then both prices were stored and fresh, the height was above the
  -- minimum, both module accounts were among the keeper's, no auction of the denom was active, and
  -- the store has changed by one valid auction, under the id after the last one, at the quoted
  -- price, and by the last id.
  pub begin_auction-Opens :
      (begin_auction k height c rate interval funding proceeds w).0 ≡ ok tt
      → (q : Quote height c.denom w) × Opens q
  unfolding begin_auction fresh_price
  begin_auction-Opens h =
      let q = begin_auction-Quote h in (q, ground (arith, launch-Launched (opening q.price) w))

  -- A call of `BeginAuction` that ends in an error or a panic leaves the store as it was.
  pub begin_auction_fails :
      (begin_auction k height c rate interval funding proceeds w).0 ≢ ok tt
      → (begin_auction k height c rate interval funding proceeds w).1.store ≡ w.store
  unfolding begin_auction fresh_price
  begin_auction_fails h = grind (arith, launch-Launched)
