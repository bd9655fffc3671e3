-- ===== src/Auction/EndBlock/Pricing.antt =====
-- The price step of `EndBlocker`: it never divides by zero, and leaves every price positive.
use Prim.Native.Nat.{Ordering}
use sommelier.Base.{ℕ, ◌%◌, ◌≡◌, ◌≢◌, true, arith, Bool-cases, inl, inr, ◌==◌, nat_eq}
use sommelier.Base.Word.{abs_int64, sub_u64}
use sommelier.Base.Exec.{for_each, for_each-Keeps, must, bind_rule}
use sommelier.Base.Table.{Entries, values, set-Entries, delete-Entries}
use sommelier.Base.Table.Ordered.{nat_key}
use sommelier.Sdk.{Sdk, lte, zero_dec, is_positive_dec}
use sommelier.Auction.Types.{Auction, World}
use sommelier.Auction.Begin.{update_store}
use sommelier.Auction.Finish.{finish_auction}
use sommelier.Auction.EndBlock.Pruning.{active-prune_ended}
use sommelier.Auction.EndBlock.{
  lower_price, update_price, with_price, lowered, prune_ended, end_blocker,
}

module _ ⦃sdk : Sdk⦄ where
  -- An auction whose price is positive and whose interval is not 0.
  abbrev pub Priced : Auction sdk.Decimal → Type 0
  Priced a =
      (is_positive_dec a.current_unit_price_in_usomm ≡ true) × (a.price_decrease_block_interval ≢ 0)

  abbrev pub AllPriced : World sdk → Type 0
  AllPriced w = Entries (λ _ a. Priced a) w.store.active

  finish_auction-AllPriced :
      (height : ℕ) (a : Auction sdk.Decimal) (w : World sdk)
      → AllPriced w
      → AllPriced (must (finish_auction height a) w).1
  unfolding finish_auction
  finish_auction-AllPriced height a w h =
      ground (arith, delete-Entries (λ _ b. Priced b) a.id w.store.active h)

-- `Cmp` of two decimals exchanged: the greater one is then the first.
abbrev pub CmpSwap : Sdk → Type 0
CmpSwap sdk = (a b : sdk.Decimal) → sdk.cmp a b ≡ Ordering.gt → sdk.cmp b a ≡ Ordering.lt

module _ ⦃sdk : Sdk⦄ (swap : CmpSwap sdk) where
  lower_price-AllPriced :
      (height : ℕ) (a : Auction sdk.Decimal) (w : World sdk)
      → AllPriced w
      → a.price_decrease_block_interval ≢ 0
      → AllPriced (lower_price height a w).1
  unfolding lower_price
  lower_price-AllPriced height a w h some_interval = elim (Bool-cases (lte (lowered a) zero_dec)) [
    | inl e ↦ rw e (finish_auction-AllPriced height a w h)
    | inr e ↦ rw e (
        set-Entries (λ _ b. Priced b) a.id (with_price a (lowered a)) w.store.active
          (ground (arith, swap (lowered a) zero_dec), some_interval) h)
  ]

  update_price-AllPriced :
      (height : ℕ) (a : Auction sdk.Decimal) (w : World sdk)
      → AllPriced w
      → AllPriced (update_price height a w).1
  unfolding update_price
  update_price-AllPriced height a w h =
      let age =
        abs_int64 (sub_u64 height a.start_block) % abs_int64 a.price_decrease_block_interval in
      elim (Bool-cases (height == a.start_block)) [
        | inl e ↦ rw e h
        | inr e ↦ elim (Bool-cases (a.price_decrease_block_interval == 0)) [
          | inl e' ↦ rw (e, e') h
          | inr e' ↦ elim (Bool-cases (age == 0)) [
            | inr e'' ↦ rw (e, e', e'') h
            | inl e'' ↦ rw (e, e', e'') (lower_price-AllPriced height _ w h (ground arith))
          ]
        ]
      ]

  -- `EndBlocker` leaves every active auction with a positive price and an interval that is not 0,
  -- if that was so before and the decimals' `Cmp` of exchanged arguments is the opposite.
  pub end_blocker-AllPriced :
      (height : ℕ) (w : World sdk) → AllPriced w → AllPriced (end_blocker height w).1
  unfolding end_blocker
  end_blocker-AllPriced height w h =
      let all =
        for_each-Keeps AllPriced (update_price height) (update_price-AllPriced height)
          (values w.store.active) w h in
      bind_rule AllPriced (for_each (update_price height) (values w.store.active))
        (λ _. update_store (prune_ended height)) w all (λ _ _. rw active-prune_ended all)
