-- ===== src/Auction/Invariant/Operations.antt =====
-- Each operation of the auction module keeps its store consistent: `BeginAuction`, `SubmitBid`,
-- `EndBlocker` and the token price proposal.
use sommelier.Base.{
  ℕ, ◌+◌, ◌%◌, ◌^◌, ◌≡◌, ◌≢◌, refl, ap, ◌∙◌, String, none, some, List, arith, Option-cases, inl,
  inr,
}
use sommelier.Base.Exec.{Outcome-cases, ok, bind_rule}
use sommelier.Base.Table
use sommelier.Base.Table.{Table, Entries, get-Entries, get-set, get-delete, Entries-zip}
use sommelier.Base.Table.Ordered.{nat_key}
use sommelier.Sdk.{Coin, Sdk}
use sommelier.Auction.Types.{Auction, Auctions, Bid, World, Keeper, MsgSubmitBid, module_name}
use sommelier.Auction.Validate.{validate_auction, validate_bid}
use sommelier.Auction.Store.{set_active_auction, set_bid, set_last_bid_id}
use sommelier.Auction.Begin.{begin_auction}
use sommelier.Auction.Begin.Opening.{begin_auction-Opens, begin_auction_fails, opening}
use sommelier.Auction.Finish.{finish_auction, closed}
use sommelier.Auction.Bidding.{Offer, prepare_bid, settle, submit_bid, with_remaining}
use sommelier.Auction.Invariant.{
  IsConsistent, ActiveAt, denom_of, open-IsConsistent, update-IsConsistent, bid-IsConsistent,
  close-IsConsistent,
}

module _ ⦃sdk : Sdk⦄ where
  valid_id : (a : Auction sdk.Decimal) → validate_auction a ≡ none → a.id ≢ 0
  unfolding validate_auction
  valid_id a h = ground arith

  valid_bid_id : (b : Bid sdk.Decimal) → validate_bid b ≡ none → b.id ≢ 0
  unfolding validate_bid
  valid_bid_id b h = ground arith

  -- `BeginAuction` keeps the store consistent, however it ends.
  pub begin_auction-IsConsistent :
      (k : Keeper) (height : ℕ) (c : Coin) (rate : sdk.Decimal) (interval : ℕ)
      (funding proceeds : String) (w : World sdk)
      → IsConsistent w.store
      → IsConsistent (begin_auction k height c rate interval funding proceeds w).1.store
  begin_auction-IsConsistent k height c rate interval funding proceeds w h =
      elim (Outcome-cases (begin_auction k height c rate interval funding proceeds w).0) [
        | inl done ↦
            let (q, o) = begin_auction-Opens k height c rate interval funding proceeds w done in
            rw o.0 (
              open-IsConsistent (opening k height c rate interval funding proceeds w q.price)
                w.store h o.2 (omega (arith, h.auction_bound, valid_id _ o.1)) (omega arith) refl)
        | inr failed ↦ rw (begin_auction_fails k height c rate interval funding proceeds w failed) h
      ]

  pub finish_auction-IsConsistent :
      (height : ℕ) (a b : Auction sdk.Decimal) (w : World sdk)
      → IsConsistent w.store
      → Table.get a.id w.store.active ≡ some b
      → IsConsistent (finish_auction height a w).1.store
  unfolding finish_auction
  finish_auction-IsConsistent height a b w c found =
      ground (arith, close-IsConsistent (closed height a) b w.store c found)

  -- The writes of a bid that is accepted.
  abbrev recorded :
      Auction sdk.Decimal → Bid sdk.Decimal → Auctions sdk.Decimal → Auctions sdk.Decimal
  recorded a bid s = set_last_bid_id bid.id (set_bid bid (set_active_auction a s))

  recorded-IsConsistent :
      (a b : Auction sdk.Decimal) (bid : Bid sdk.Decimal) (s : Auctions sdk.Decimal)
      → IsConsistent s
      → Table.get a.id s.active ≡ some b
      → denom_of b ≡ denom_of a
      → a.end_block ≡ 0
      → validate_bid bid ≡ none
      → bid.id ≡ (s.last_bid_id + 1) % 2 ^ 64
      → IsConsistent (recorded a bid s)
  recorded-IsConsistent a b bid s c found same no_end valid e =
      bid-IsConsistent bid (set_active_auction a s) (update-IsConsistent a b s c found same no_end)
        (omega (arith, c.bid_bound, valid_bid_id bid valid)) (omega arith)

  -- The bank after the two transfers of a bid.
  abbrev paid_bank : Bid sdk.Decimal → List Coin → List Coin → sdk.Bank → sdk.Bank
  paid_bank bid paid bought b =
      (sdk.send_module_to_account module_name bid.bidder bought
        (sdk.send_account_to_module bid.bidder module_name paid b).1).1

  settle_cases :
      (P : Auctions sdk.Decimal → Type 0) (height : ℕ) (a : Auction sdk.Decimal) (left : Coin)
      (bid : Bid sdk.Decimal) (w : World sdk)
      → P w.store
      → (validate_bid bid ≡ none
          → (c : Coin) (b : sdk.Bank)
          → P (recorded (with_remaining a c) bid w.store)
            × P
                (finish_auction height
                  (with_remaining a c)
                  (record { store = recorded (with_remaining a c) bid w.store; bank = b })).1.store)
      → P (settle height a left bid w).1.store
  unfolding settle
  settle_cases P height a left bid w before after = elim (Option-cases (validate_bid bid)) [
    | inr (_, e) ↦ ground arith
    | inl valid ↦ elim (Option-cases (sdk.new_coins bid.total_usomm_paid)) [
      | inl e ↦ ground arith
      | inr (paid, e) ↦ elim (Option-cases (sdk.new_coins bid.total_fulfilled_sale_tokens)) [
        | inl e' ↦ ground arith
        | inr (bought, e') ↦
            elim (Option-cases (sdk.sub_coin left bid.total_fulfilled_sale_tokens)) [
              | inl e'' ↦ ground arith
              | inr (c, e'') ↦ ground (arith, after valid c (paid_bank bid paid bought w.bank))
            ]
      ]
    ]
  ]

  settle-IsConsistent :
      (height : ℕ) (a : Auction sdk.Decimal) (left : Coin) (bid : Bid sdk.Decimal) (w : World sdk)
      → IsConsistent w.store
      → Table.get a.id w.store.active ≡ some a
      → a.end_block ≡ 0
      → bid.id ≡ (w.store.last_bid_id + 1) % 2 ^ 64
      → IsConsistent (settle height a left bid w).1.store
  settle-IsConsistent height a left bid w c found no_end e =
      settle_cases IsConsistent height a left bid w c λ valid coin b.
        let a' = with_remaining a coin in
        let kept = recorded-IsConsistent a' a bid w.store c found refl no_end valid e in
        (
          kept,
          finish_auction-IsConsistent height a' a' _ kept
              (ground (arith, get-set a.id a.id a' w.store.active)),
        )

  prepare_bid_reads :
      (height : ℕ) (m : MsgSubmitBid) (w : World sdk) → (prepare_bid height m w).1 ≡ w
  unfolding prepare_bid
  prepare_bid_reads height m w = ground arith

  prepare_bid_offer :
      (height : ℕ) (m : MsgSubmitBid) (w : World sdk) (o : Offer)
      → (prepare_bid height m w).0 ≡ ok o
      → (Table.get m.auction_id w.store.active ≡ some o.auction)
        × (o.bid.id ≡ (w.store.last_bid_id + 1) % 2 ^ 64)
  unfolding prepare_bid
  prepare_bid_offer height m w o h = ground arith

  -- `SubmitBid` keeps the store consistent, however it ends.
  pub submit_bid-IsConsistent :
      (height : ℕ) (m : MsgSubmitBid) (w : World sdk)
      → IsConsistent w.store
      → IsConsistent (submit_bid height m w).1.store
  unfolding submit_bid
  submit_bid-IsConsistent height m w c =
      bind_rule (λ v. IsConsistent v.store) (prepare_bid height m)
        (λ o. settle height o.auction o.left o.bid) w (rw prepare_bid_reads c)
        λ o e.
          let (found, id) = prepare_bid_offer height m w o e in
          let at =
            get-Entries (ActiveAt w.store.last_auction_id) m.auction_id o.auction w.store.active
              c.active_ids found in
          rw prepare_bid_reads (
            settle-IsConsistent height o.auction o.left o.bid w c
              (ap (λ i. Table.get i w.store.active) at.0 ∙ found) at.3 id)
