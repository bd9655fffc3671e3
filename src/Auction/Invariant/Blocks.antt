-- ===== src/Auction/Invariant/Blocks.antt =====
-- `EndBlocker` and the token price proposal keep the auction store consistent.
use mathlib.Core.List.{reverse}
use sommelier.Base.{
  ℕ, ◌%◌, ◌≡◌, ◌≢◌, refl, ap, ◌∙◌, String, true, some, List, [], ◌∷◌, arith, tests, ◌==◌, nat_eq,
  Bool-cases, Option-cases, if_rule, inl, inr,
}
use sommelier.Base.Exec.{bind_rule, for_each, must}
use sommelier.Base.Word.{abs_int64, sub_u64}
use sommelier.Base.Table
use sommelier.Base.Table.{Table, Entries, values, get-set, get-delete, get-Entries, Entries-zip}
use sommelier.Base.Table.Ordered.{Ordered, Ordered-get, nat_key, nat_laws}
use sommelier.Sdk.{Sdk, lte, zero_dec}
use sommelier.Auction.Types.{Auction, Auctions, Bid, World, ProposedTokenPrice}
use sommelier.Auction.Store.{delete_bid, get_bids_by_auction, get_ended_auctions}
use sommelier.Auction.Begin.{Action, update_store}
use sommelier.Auction.Finish.{finish_auction}
use sommelier.Auction.EndBlock.{
  lower_price, update_price, with_price, lowered, delete_bids, drop_auction, prunable, prune,
  prune_ended, end_blocker,
}
use sommelier.Auction.Prices.{
  SetTokenPricesProposal, validate_proposal, set_prices, handle_set_token_prices,
}
use sommelier.Auction.Invariant.{
  IsConsistent, ActiveAt, denom_of, update-IsConsistent, delete_ended-IsConsistent,
  delete_bid-IsConsistent,
}
use sommelier.Auction.Invariant.Operations.{finish_auction-IsConsistent}

module _ ⦃sdk : Sdk⦄ where
  -- No active auction but `a` has changed.
  abbrev OnlyAt : ℕ → World sdk → World sdk → Type 0
  OnlyAt id w v = (j : ℕ) → j ≢ id → Table.get j v.store.active ≡ Table.get j w.store.active

  finish_auction-OnlyAt :
      (height : ℕ) (a : Auction sdk.Decimal) (w : World sdk)
      → OnlyAt a.id w (finish_auction height a w).1
  unfolding finish_auction
  finish_auction-OnlyAt height a w j ne = ground (arith, get-delete a.id j w.store.active)

  must_state : {A : Type 0} (m : Action A) (w : World sdk) → (must m w).1 ≡ (m w).1
  must_state m w = ground arith

  lower_price-IsConsistent :
      (height : ℕ) (a b : Auction sdk.Decimal) (w : World sdk)
      → IsConsistent w.store
      → Table.get a.id w.store.active ≡ some b
      → denom_of b ≡ denom_of a
      → a.end_block ≡ 0
      → IsConsistent (lower_price height a w).1.store × OnlyAt a.id w (lower_price height a w).1
  unfolding lower_price
  lower_price-IsConsistent height a b w c found same no_end =
      elim (Bool-cases (lte (lowered a) zero_dec)) [
        | inl e ↦
            rw (e, must_state)
              (finish_auction-IsConsistent height a b w c found, finish_auction-OnlyAt height a w)
        | inr e ↦ rw e (
          update-IsConsistent (with_price a (lowered a)) b w.store c found same no_end,
          λ j ne. ground (arith, get-set a.id j (with_price a (lowered a)) w.store.active),
        )
      ]

  update_price-IsConsistent :
      (height : ℕ) (a : Auction sdk.Decimal) (w : World sdk)
      → IsConsistent w.store
      → Table.get a.id w.store.active ≡ some a
      → IsConsistent (update_price height a w).1.store × OnlyAt a.id w (update_price height a w).1
  unfolding update_price
  update_price-IsConsistent height a w c found =
      let at =
        get-Entries (ActiveAt w.store.last_auction_id) a.id a w.store.active c.active_ids found in
      let stay : IsConsistent w.store × OnlyAt a.id w w = (c, λ j _. refl) in
      let age =
        abs_int64 (sub_u64 height a.start_block) % abs_int64 a.price_decrease_block_interval in
      elim (Bool-cases (height == a.start_block)) [
        | inl e ↦ rw e stay
        | inr e ↦ elim (Bool-cases (a.price_decrease_block_interval == 0)) [
          | inl e' ↦ rw (e, e') stay
          | inr e' ↦ elim (Bool-cases (age == 0)) [
            | inr e'' ↦ rw (e, e', e'') stay
            | inl e'' ↦ rw (e, e', e'') (lower_price-IsConsistent height _ a w c found refl at.3)
          ]
        ]
      ]

  -- The auctions that are left to visit are still in the store as they were collected.
  abbrev Live : Table ℕ (Auction sdk.Decimal) → World sdk → Type 0
  Live t w = Entries (λ i a. Table.get i w.store.active ≡ some a) t

  update_all-IsConsistent :
      (height : ℕ) (t : Table ℕ (Auction sdk.Decimal)) (w : World sdk)
      → Ordered t
      → Live t w
      → IsConsistent w.store
      → IsConsistent (for_each (update_price height) (values t) w).1.store
  unfolding for_each
  update_all-IsConsistent height [] w o l c = c
  update_all-IsConsistent height ((i, a) ∷ t) w o l c =
      let at = get-Entries (ActiveAt w.store.last_auction_id) i a w.store.active c.active_ids l.0 in
      let step =
        update_price-IsConsistent height a w c (ap (λ k. Table.get k w.store.active) at.0 ∙ l.0) in
      let w' = (update_price height a w).1 in
      bind_rule (λ v. IsConsistent v.store) (update_price height a)
        (λ _. for_each (update_price height) (values t)) w step.0
        λ _ _.
          update_all-IsConsistent height t w' o.1
            (Entries-zip (λ k _. nat_key.before i k ≡ true)
              (λ k b. Table.get k w.store.active ≡ some b)
              (λ k b. Table.get k w'.store.active ≡ some b) t
              (λ k b above e. step.1 k (omega (tests, at.0)) ∙ e) o.0 l.1)
            step.0

  delete_bids-IsConsistent :
      (id : ℕ) (bids : List (Bid sdk.Decimal)) (s : Auctions sdk.Decimal)
      → IsConsistent s
      → IsConsistent (delete_bids id bids s)
  unfolding delete_bids
  delete_bids-IsConsistent id [] s c = c
  delete_bids-IsConsistent id (b ∷ bids) s c =
      delete_bids-IsConsistent id bids (delete_bid id b.id s) (delete_bid-IsConsistent id b.id s c)

  drop_auction-IsConsistent :
      (a : Auction sdk.Decimal) (s : Auctions sdk.Decimal)
      → IsConsistent s
      → IsConsistent (drop_auction a s)
  unfolding drop_auction
  drop_auction-IsConsistent a s c =
      delete_ended-IsConsistent a.id _
        (delete_bids-IsConsistent a.id (get_bids_by_auction a.id s) s c)

  prune-IsConsistent :
      (height age : ℕ) (seen : List String) (left : List (Auction sdk.Decimal))
      (s : Auctions sdk.Decimal)
      → IsConsistent s
      → IsConsistent (prune height age seen left s)
  unfolding prune
  prune-IsConsistent height age seen [] s c = c
  prune-IsConsistent height age seen (a ∷ left) s c =
      if_rule IsConsistent (prunable height age seen a) _ _
        (prune-IsConsistent height age seen left (drop_auction a s)
          (drop_auction-IsConsistent a s c))
        (prune-IsConsistent height age (denom_of a ∷ seen) left s c)

  prune_ended-IsConsistent :
      (height : ℕ) (s : Auctions sdk.Decimal) → IsConsistent s → IsConsistent (prune_ended height s)
  unfolding prune_ended
  prune_ended-IsConsistent height s c =
      if_rule IsConsistent (s.params.auction_max_block_age == 0) _ _ c (
        prune-IsConsistent height s.params.auction_max_block_age [] (reverse (get_ended_auctions s))
          s c)

  -- `EndBlocker` keeps the store consistent, however it ends.
  pub end_blocker-IsConsistent :
      (height : ℕ) (w : World sdk)
      → IsConsistent w.store
      → IsConsistent (end_blocker height w).1.store
  unfolding end_blocker
  end_blocker-IsConsistent height w c =
      let all =
        update_all-IsConsistent height w.store.active w c.active_ordered
          (Ordered-get nat_laws w.store.active c.active_ordered) c in
      bind_rule (λ v. IsConsistent v.store) (for_each (update_price height) (values w.store.active))
        (λ _. update_store (prune_ended height)) w all
        (λ _ _. prune_ended-IsConsistent height _ all)

  set_prices-IsConsistent :
      (height : ℕ) (ts : List (ProposedTokenPrice sdk.Decimal)) (s : Auctions sdk.Decimal)
      → IsConsistent s
      → IsConsistent (set_prices height ts s)
  unfolding set_prices
  set_prices-IsConsistent height [] s c = c
  set_prices-IsConsistent height (t ∷ ts) s c = set_prices-IsConsistent height ts _ (record {
    active_ordered = c.active_ordered;
    ended_ordered = c.ended_ordered;
    bids_ordered = c.bids_ordered;
    active_ids = c.active_ids;
    ended_ids = c.ended_ids;
    bid_ids = c.bid_ids;
    auction_bound = c.auction_bound;
    bid_bound = c.bid_bound;
    apart = c.apart;
    one_per_denom = c.one_per_denom;
  })

  -- The token price proposal keeps the store consistent, however it ends.
  pub handle_set_token_prices-IsConsistent :
      (height : ℕ) (p : SetTokenPricesProposal sdk.Decimal) (w : World sdk)
      → IsConsistent w.store
      → IsConsistent (handle_set_token_prices height p w).1.store
  unfolding handle_set_token_prices
  handle_set_token_prices-IsConsistent height p w c = elim (Option-cases (validate_proposal p)) [
    | inl e ↦ rw e (set_prices-IsConsistent height p.token_prices w.store c)
    | inr (f, e) ↦ rw e c
  ]
