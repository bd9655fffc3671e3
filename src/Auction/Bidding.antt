-- ===== src/Auction/Bidding.antt =====
-- `SubmitBid` of x/auction/keeper/msg_server.go.
pub mod Outcome
use sommelier.Base.{
  ℕ, ◌+◌, ◌%◌, ◌^◌, String, not, Option, none, some, ◌==◌, string_eq, if◌then◌else◌,
}
use sommelier.Base.Int.{ℤ, pos, ltb_ℤ, leb_ℤ, is_zero}
use sommelier.Base.Exec.{
  wrapped, ◌>>=◌, ◌>>◌, pure, raise, gets, or_panic, or_raise, raise_if, when, must,
}
use sommelier.Sdk.{Coin, Sdk, lt}
use sommelier.Auction.Types.{Auction, Bid, MsgSubmitBid, Error, base_coin_unit, module_name}
use sommelier.Auction.Validate.{Check, validate_bid}
use sommelier.Auction.Store.{get_active_auction, set_active_auction, set_bid, set_last_bid_id}
use sommelier.Auction.Begin.{Action, update_store, bank_call}
use sommelier.Auction.Finish.{finish_auction}

module _ ⦃sdk : Sdk⦄ where
  -- The least bid: the parameter, or the value of what is left if that is less.
  unfoldable pub minimum_bid : ℤ → sdk.Decimal → ℕ → Option ℤ
  minimum_bid left price least =
      let value = sdk.mul (sdk.dec_int left) price in
      if lt value (sdk.dec_int (pos least)) then sdk.truncate_int64 value else some (pos least)

  -- What the sale tokens that a bid must at least buy cost, rounded up.
  abbrev pub minimum_price : sdk.Decimal → ℤ → Option ℤ
  minimum_price price amount = sdk.truncate_int64 (sdk.ceil (sdk.mul price (sdk.dec_int amount)))

  -- The whole sale tokens that an amount of usomm can buy.
  abbrev pub purchasable : ℤ → sdk.Decimal → Option ℤ
  purchasable max price = elim (sdk.quo (sdk.dec_int max) price) [
    | none ↦ none
    | some q ↦ some (sdk.truncate_int q)
  ]

  -- How much of a bid the balance can fulfil.
  unfoldable pub fulfil : ℤ → ℤ → ℤ → Option ℤ
  fulfil left wanted least =
      if leb_ℤ wanted left then some wanted else if leb_ℤ least left then some left else none

  -- The payment for an amount of sale tokens, rounded up.
  abbrev pub payment : ℤ → sdk.Decimal → Option ℤ
  payment amount price = sdk.truncate_int64 (sdk.ceil (sdk.mul (sdk.dec_int amount) price))

  abbrev pub must_hold : Check → Action (Unit {0})
  must_hold none = pure tt
  must_hold (some e) = raise e

  abbrev pub with_remaining : Auction sdk.Decimal → Coin → Auction sdk.Decimal
  with_remaining a c = record a { remaining_tokens_for_sale = c }

  -- From `bid.ValidateBasic()` to the end: the part that writes.
  unfoldable pub settle :
      ℕ → Auction sdk.Decimal → Coin → Bid sdk.Decimal → Action (Bid sdk.Decimal)
  settle height a left bid = do
    must_hold (validate_bid bid)
    paid ← or_panic (sdk.new_coins bid.total_usomm_paid)
    bank_call (sdk.send_account_to_module bid.bidder module_name paid)
    bought ← or_panic (sdk.new_coins bid.total_fulfilled_sale_tokens)
    must (bank_call (sdk.send_module_to_account module_name bid.bidder bought))
    remaining ← or_panic (sdk.sub_coin left bid.total_fulfilled_sale_tokens)
    update_store (set_active_auction (with_remaining a remaining))
    update_store (set_bid bid)
    update_store (set_last_bid_id bid.id)
    when (is_zero remaining.amount) (must (finish_auction height (with_remaining a remaining)))
    pure bid

  abbrev pub placed :
      ℕ → ℕ → String → MsgSubmitBid → Auction sdk.Decimal → Coin → Coin → Bid sdk.Decimal
  placed id height signer m a bought paid = record {
    id = id;
    auction_id = m.auction_id;
    bidder = signer;
    max_bid_in_usomm = m.max_bid_in_usomm;
    sale_token_minimum_amount = m.sale_token_minimum_amount;
    total_fulfilled_sale_tokens = bought;
    sale_token_unit_price_in_usomm = a.current_unit_price_in_usomm;
    total_usomm_paid = paid;
    block_height = height;
  }

  -- What a bid that passes the checks comes to.
  pub record Offer : Type 0 where
    pub auction : Auction sdk.Decimal
    pub left : Coin
    pub bid : Bid sdk.Decimal

  -- From the start to the making of the bid: the part that only reads.
  unfoldable pub prepare_bid : ℕ → MsgSubmitBid → Action Offer
  prepare_bid height m = do
    signer ← or_panic (sdk.acc_address m.signer)
    found ← gets (λ w. get_active_auction m.auction_id w.store)
    a ← or_raise found (wrapped Error.auction_not_found)
    raise_if (not (a.starting_tokens_for_sale.denom == m.sale_token_minimum_amount.denom))
        (wrapped Error.bid_auction_denom_mismatch)
    left ← gets (λ w. sdk.module_balance w.bank module_name a.starting_tokens_for_sale.denom)
    least ← gets (λ w. w.store.params.minimum_bid_in_usomm)
    least_bid ← or_panic (minimum_bid left.amount a.current_unit_price_in_usomm least)
    raise_if (ltb_ℤ m.max_bid_in_usomm.amount least_bid) (wrapped Error.bid_amount_is_too_small)
    price ←
        or_panic (minimum_price a.current_unit_price_in_usomm m.sale_token_minimum_amount.amount)
    raise_if (ltb_ℤ m.max_bid_in_usomm.amount price) (wrapped Error.insufficient_bid)
    none_bought ← or_panic (sdk.new_coin a.starting_tokens_for_sale.denom (pos 0))
    wanted ← or_panic (purchasable m.max_bid_in_usomm.amount a.current_unit_price_in_usomm)
    amount ←
        or_raise (fulfil left.amount wanted m.sale_token_minimum_amount.amount)
          (wrapped Error.minimum_purchase_amount_larger_than_tokens_remaining)
    cost ← or_panic (payment amount a.current_unit_price_in_usomm)
    paid ← or_panic (sdk.new_coin base_coin_unit cost)
    last ← gets (λ w. w.store.last_bid_id)
    pure (record {
      auction = a;
      left = left;
      bid =
          placed ((last + 1) % 2 ^ 64) height signer m a (record none_bought { amount = amount })
            paid;
    })

  unfoldable pub submit_bid : ℕ → MsgSubmitBid → Action (Bid sdk.Decimal)
  submit_bid height m = do o ← prepare_bid height m; settle height o.auction o.left o.bid
