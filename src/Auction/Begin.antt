-- ===== src/Auction/Begin.antt =====
-- `BeginAuction` of x/auction/keeper/keeper.go. The height is the block's, as the uint64 that the
-- code converts it to. Events are not modelled.
pub mod Opening
use sommelier.Base.{
  ℕ, ◌+◌, ◌%◌, ◌^◌, String, Bool, not, Option, none, some, [], ◌∷◌, ltb, leb, ◌==◌, string_eq, any,
  if◌then◌else◌,
}
use sommelier.Base.Int.{pos}
use sommelier.Base.Word.{sub_u64}
use sommelier.Base.Exec.{
  Failure, wrapped, foreign, Outcome, ok, err, panic, Exec, ◌>>=◌, ◌>>◌, pure, raise, abort, gets,
  or_panic, raise_if, modify,
}
use sommelier.Sdk.{Coin, Sdk}
use sommelier.Auction.Types.{
  Auction, TokenPrice, Params, Error, World, Auctions, Keeper, base_coin_unit, coin_exponent,
  module_name,
}
use sommelier.Auction.Validate.{Check, validate_auction, is_positive}
use sommelier.Auction.Store.{
  get_token_price, get_active_auctions, set_active_auction, set_last_auction_id,
}

module _ ⦃sdk : Sdk⦄ where
  abbrev pub Action : Type 0 → Type 0
  Action A = Exec (World sdk) Error A

  abbrev pub update_store : (Auctions sdk.Decimal → Auctions sdk.Decimal) → Action (Unit {0})
  update_store f = modify λ w. record w { store = f w.store }

  -- A call of the bank keeper. Its error is not one of the module's.
  abbrev pub handed_on : Outcome sdk.Reason (Unit {0}) → Outcome Error (Unit {0})
  handed_on (ok _) = ok tt
  handed_on (err _) = err foreign
  handed_on panic = panic

  abbrev pub bank_call : (sdk.Bank → Outcome sdk.Reason (Unit {0}) × sdk.Bank) → Action (Unit {0})
  bank_call f w = let (r, b) = f w.bank in (handed_on r, record w { bank = b })

  unfoldable pub token_price_too_old : ℕ → Params sdk.Decimal → TokenPrice sdk.Decimal → Bool
  unfolding sub_u64
  token_price_too_old height p t = ltb p.price_max_block_age (sub_u64 height t.last_updated_block)

  -- A stored price that is fresh enough.
  unfoldable pub fresh_price : ℕ → String → Error → Error → Action (TokenPrice sdk.Decimal)
  unfolding token_price_too_old
  fresh_price height denom missing old w = elim (get_token_price denom w.store) [
    | none ↦ (err (wrapped missing), w)
    | some t ↦ (if token_price_too_old height w.store.params t then err (wrapped old) else ok t, w)
  ]

  -- The price of the least unit of a token in usomm, from the two prices in USD.
  unfoldable pub price_in_usomm :
      TokenPrice sdk.Decimal → TokenPrice sdk.Decimal → Option sdk.Decimal
  price_in_usomm sale usomm =
      elim (sdk.quo sale.usd_price (sdk.power (sdk.dec_str "10.0") sale.exponent)) [
        | none ↦ none
        | some sale_value ↦
            elim (sdk.quo usomm.usd_price (sdk.power (sdk.dec_str "10.0") coin_exponent)) [
              | none ↦ none
              | some usomm_value ↦ sdk.quo sale_value usomm_value
            ]
      ]

  -- `auction.ValidateBasic()`, whose error the caller turns into a panic.
  abbrev pub must_pass : Check → Action (Unit {0})
  must_pass none = pure tt
  must_pass (some e) = abort

  -- Whether an auction of the denom is active.
  abbrev pub on_sale : String → Auctions sdk.Decimal → Bool
  on_sale denom s = any (λ a. a.starting_tokens_for_sale.denom == denom) (get_active_auctions s)

  abbrev pub opened :
      ℕ → ℕ → Coin → sdk.Decimal → ℕ → sdk.Decimal → String → String → Auction sdk.Decimal
  opened id height starting rate interval price funding proceeds = record {
    id = id;
    starting_tokens_for_sale = starting;
    start_block = height;
    end_block = 0;
    initial_price_decrease_rate = rate;
    current_price_decrease_rate = rate;
    price_decrease_block_interval = interval;
    initial_unit_price_in_usomm = price;
    current_unit_price_in_usomm = price;
    remaining_tokens_for_sale = starting;
    funding_module_account = funding;
    proceeds_module_account = proceeds;
  }

  -- From the check of the new auction to the end: the only part that writes.
  unfoldable pub launch : Auction sdk.Decimal → Action (Unit {0})
  launch a = do
    must_pass (validate_auction a)
    ongoing ← gets (λ w. on_sale a.starting_tokens_for_sale.denom w.store)
    raise_if ongoing (wrapped Error.cannot_start_two_auctions_for_same_denom_simultaneously)
    bank_call (
        sdk.send_module_to_module a.funding_module_account module_name
          (a.starting_tokens_for_sale ∷ []))
    update_store (set_active_auction a)
    update_store (set_last_auction_id a.id)

  unfoldable pub begin_auction :
      Keeper → ℕ → Coin → sdk.Decimal → ℕ → String → String → Action (Unit {0})
  unfolding launch fresh_price price_in_usomm
  begin_auction k height starting rate interval funding proceeds = do
    p ← gets (λ w. w.store.params)
    raise_if (leb height p.minimum_auction_height) (wrapped Error.auction_below_minimum_height)
    raise_if (not (is_positive starting)) (wrapped Error.auction_starting_amount_must_be_positive)
    raise_if (not (any (λ m. m == funding) k.funding_module_accounts))
        (wrapped Error.unauthorized_funding_module)
    raise_if (not (any (λ m. m == proceeds) k.proceeds_module_accounts))
        (wrapped Error.unauthorized_proceeds_module)
    sale ←
        fresh_price height starting.denom Error.could_not_find_sale_token_price
          Error.last_sale_token_price_too_old
    usomm ←
        fresh_price height base_coin_unit Error.could_not_find_somm_token_price
          Error.last_somm_token_price_too_old
    price ← or_panic (price_in_usomm sale usomm)
    last ← gets (λ w. w.store.last_auction_id)
    launch (opened ((last + 1) % 2 ^ 32) height starting rate interval price funding proceeds)
