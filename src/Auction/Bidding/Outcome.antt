-- ===== src/Auction/Bidding/Outcome.antt =====
-- What a call of `SubmitBid` does, by how it ends.
use sommelier.Base.{
  ℕ, ◌+◌, ◌%◌, ◌^◌, ◌≡◌, ◌⊎◌, sym, ap, ◌∙◌, none, some, arith, Option-cases, inl, inr,
  if◌then◌else◌,
}
use sommelier.Base.Int.{ℤ, ◌≤ℤ◌, is_zero}
use text.Mathlib.TextEquality.{eq_iff}
use sommelier.Base.Exec.{Failure, ok, err, bind_ok}
use sommelier.Sdk.{Coin, Sdk}
use sommelier.Auction.Types.{
  Auction, Auctions, Bid, World, MsgSubmitBid, Error, base_coin_unit, module_name,
}
use sommelier.Auction.Validate.{validate_bid}
use sommelier.Auction.Store.{
  get_active_auction, set_active_auction, set_ended_auction, delete_active_auction, set_bid,
  set_last_bid_id,
}
use sommelier.Auction.Finish.{closed}
use sommelier.Auction.Finish.Closing.{finish_auction_store}
use sommelier.Auction.Bidding.{
  Offer, prepare_bid, settle, submit_bid, with_remaining, fulfil, purchasable, payment,
}

module _ ⦃sdk : Sdk⦄ where
  -- The store after a bid that leaves `c` for sale.
  abbrev pub recorded :
      Auction sdk.Decimal → Coin → Bid sdk.Decimal → Auctions sdk.Decimal → Auctions sdk.Decimal
  recorded a c bid s =
      set_last_bid_id bid.id (set_bid bid (set_active_auction (with_remaining a c) s))

  -- The auction is finished if nothing is left.
  abbrev pub after_bid :
      ℕ → Auction sdk.Decimal → Coin → Bid sdk.Decimal → Auctions sdk.Decimal → Auctions sdk.Decimal
  after_bid height a c bid s =
      if is_zero c.amount
      then set_ended_auction (closed height (with_remaining a c))
          (delete_active_auction a.id (recorded a c bid s))
      else recorded a c bid s

  -- A bid that is settled has passed its checks and is what the call returns.
  abbrev pub Settled :
      ℕ → Auction sdk.Decimal → Coin → Bid sdk.Decimal → World sdk → World sdk → Type 0
  Settled height a left bid w v =
      (c : Coin) × (sdk.sub_coin left bid.total_fulfilled_sale_tokens ≡ some c)
      × (v.store ≡ after_bid height a c bid w.store)

  pub settle_ok :
      (height : ℕ) (a : Auction sdk.Decimal) (left : Coin) (bid b : Bid sdk.Decimal) (w : World sdk)
      → (settle height a left bid w).0 ≡ ok b
      → (b ≡ bid)
        × (validate_bid bid ≡ none)
        × Settled height a left bid w (settle height a left bid w).1
  unfolding settle
  settle_ok height a left bid b w h =
      elim (Option-cases (sdk.sub_coin left bid.total_fulfilled_sale_tokens)) [
        | inl e ↦ absurd (ground arith)
        | inr (c, e) ↦ (ground arith, ground arith, (c, e, grind (arith, finish_auction_store)))
      ]

  pub settle_err :
      (height : ℕ) (a : Auction sdk.Decimal) (left : Coin) (bid : Bid sdk.Decimal)
      (e : Failure Error) (w : World sdk)
      → (settle height a left bid w).0 ≡ err e
      → (settle height a left bid w).1.store ≡ w.store
  unfolding settle
  settle_err height a left bid e w h = ground arith

  -- What an offer is made from.
  pub record Priced (m : MsgSubmitBid) (w : World sdk) (o : Offer) : Type 0 where
    pub found : get_active_auction m.auction_id w.store ≡ some o.auction
    pub same_denom : o.auction.starting_tokens_for_sale.denom ≡ m.sale_token_minimum_amount.denom
    pub available :
        o.left ≡ sdk.module_balance w.bank module_name o.auction.starting_tokens_for_sale.denom
    pub next_id : o.bid.id ≡ (w.store.last_bid_id + 1) % 2 ^ 64
    pub for_auction : o.bid.auction_id ≡ m.auction_id
    pub wanted : ℤ
    pub can_buy :
        purchasable m.max_bid_in_usomm.amount o.auction.current_unit_price_in_usomm ≡ some wanted
    pub fulfilled :
        fulfil o.left.amount wanted m.sale_token_minimum_amount.amount
        ≡ some o.bid.total_fulfilled_sale_tokens.amount
    pub cost : ℤ
    pub costs :
        payment o.bid.total_fulfilled_sale_tokens.amount o.auction.current_unit_price_in_usomm
        ≡ some cost
    pub paid : sdk.new_coin base_coin_unit cost ≡ some o.bid.total_usomm_paid

  prepare_bid_reads :
      (height : ℕ) (m : MsgSubmitBid) (w : World sdk) → (prepare_bid height m w).1 ≡ w
  unfolding prepare_bid
  prepare_bid_reads height m w = ground arith

  prepare_bid-Priced :
      (height : ℕ) (m : MsgSubmitBid) (w : World sdk) (o : Offer)
      → (prepare_bid height m w).0 ≡ ok o
      → Priced m w o
  unfolding prepare_bid
  prepare_bid-Priced height m w o h =
      elim (Option-cases
        (purchasable m.max_bid_in_usomm.amount o.auction.current_unit_price_in_usomm)) [
          | inl e ↦ absurd (ground arith)
          | inr (wanted, e) ↦
              elim (Option-cases (
                payment o.bid.total_fulfilled_sale_tokens.amount
                  o.auction.current_unit_price_in_usomm)) [
                    | inl e' ↦ absurd (ground arith)
                    | inr (cost, e') ↦ record {
                      found = ground arith;
                      same_denom = grind (arith, eq_iff);
                      available = ground arith;
                      next_id = ground arith;
                      for_auction = ground arith;
                      wanted = wanted;
                      can_buy = e;
                      fulfilled = ground arith;
                      cost = cost;
                      costs = e';
                      paid = ground arith;
                    }
                  ]
        ]

  -- A call that succeeds is a settled offer.
  prepared :
      (height : ℕ) (m : MsgSubmitBid) (w : World sdk) (b : Bid sdk.Decimal)
      → (submit_bid height m w).0 ≡ ok b
      → (o : Offer) × ((prepare_bid height m w).0 ≡ ok o)
        × (submit_bid height m w ≡ settle height o.auction o.left o.bid w)
  unfolding submit_bid
  prepared height m w b h =
      let (o, e, same) =
        bind_ok (prepare_bid height m) (λ o. settle height o.auction o.left o.bid) w b h in
      (o, e, same ∙ ap (settle height o.auction o.left o.bid) (prepare_bid_reads height m w))

  -- An amount that is fulfilled is at most what is left and at most what is wanted, and it is all that
  -- is wanted or at least the least amount that the bid takes.
  pub fulfil_bounds :
      (left wanted least n : ℤ)
      → fulfil left wanted least ≡ some n
      → (n ≤ℤ left) × (n ≤ℤ wanted) × ((least ≤ℤ n) ⊎ (n ≡ wanted))
  unfolding fulfil
  fulfil_bounds left wanted least n h = (ground arith, ground arith, ground arith)

  -- If `SubmitBid` succeeds, the bid that it returns passes its own checks and is made of an offer: the
  -- auction was active and of the denom bid on, the amount was what the balance could fulfil of what
  -- the maximal bid could buy, the payment was the price of that amount rounded up, and the id was the
  -- one after the last. The store has changed by the bid, the last bid id and the auction's remaining
  -- tokens, and the auction has ended if none remain.
  pub submit_bid_accepts :
      (height : ℕ) (m : MsgSubmitBid) (w : World sdk) (b : Bid sdk.Decimal)
      → (submit_bid height m w).0 ≡ ok b
      → (o : Offer) × Priced m w o
        × (b ≡ o.bid)
        × (validate_bid b ≡ none)
        × Settled height o.auction o.left b w (submit_bid height m w).1
  submit_bid_accepts height m w b h =
      let (o, e, same) = prepared height m w b h in
      let (eq, valid, settled) =
        settle_ok height o.auction o.left o.bid b w (ap (λ r. r.0) (sym same) ∙ h) in
      (o, prepare_bid-Priced height m w o e, eq, rw eq valid, rw (eq, same) settled)

  -- A bid that ends in an error leaves the store as it was.
  pub submit_bid_rejects :
      (height : ℕ) (m : MsgSubmitBid) (w : World sdk) (e : Failure Error)
      → (submit_bid height m w).0 ≡ err e
      → (submit_bid height m w).1.store ≡ w.store
  unfolding submit_bid
  submit_bid_rejects height m w e h = grind (arith, settle_err, prepare_bid_reads)
