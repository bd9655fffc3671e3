-- ===== src/CellarFees/Blocks/Keeping.antt =====
-- What `BeginBlocker` keeps: the consistency of the auction module's store, and the order of the
-- counters.
use sommelier.Base.{
  ℕ, ◌≡◌, String, Bool, [], ◌∷◌, arith, Bool-cases, inl, inr, ◌&&◌, leb, if◌then◌else◌,
}
use sommelier.Base.Exec.{bind_rule}
use sommelier.Sdk.{Sdk}
use sommelier.Auction.Types.{Keeper}
use sommelier.Auction.Invariant.{IsConsistent}
use sommelier.Auction.Invariant.Operations.{begin_auction-IsConsistent}
use sommelier.CellarFees.Types.{Counters, FeesWorld, fees_name}
use sommelier.CellarFees.Counters.{reset_counter}
use sommelier.CellarFees.Emission.{get_emission}
use sommelier.CellarFees.Blocks.{
  auction_off, try_auction, auction_fees, auction_all, emit_rewards, begin_blocker,
}

module _ ⦃sdk : Sdk⦄ where
  abbrev pub StoreOk : FeesWorld sdk → Type 0
  StoreOk w = IsConsistent w.chain.store

  try_auction-StoreOk :
      (k : Keeper) (height : ℕ) (denom : String) (w : FeesWorld sdk)
      → StoreOk w
      → StoreOk (try_auction k height denom w).1
  unfolding try_auction auction_off
  try_auction-StoreOk k height denom w c =
      let p = w.fees.params in
      let balance = sdk.module_balance w.chain.bank fees_name denom in
      let kept =
        begin_auction-IsConsistent k height balance p.initial_price_decrease_rate
          p.price_decrease_block_interval fees_name fees_name w.chain c in
      ground (arith, kept)

  auction_fees-StoreOk :
      (k : Keeper) (height threshold : ℕ) (due : Bool) (cs left : Counters) (w : FeesWorld sdk)
      → StoreOk w
      → StoreOk (auction_fees k height threshold due cs left w).1
  unfolding auction_fees
  auction_fees-StoreOk k height threshold due [] left w c = c
  auction_fees-StoreOk k height threshold due (x ∷ cs) left w c =
      elim (Bool-cases (leb threshold x.count && due)) [
        | inl e ↦ rw e (
            bind_rule StoreOk (try_auction k height x.denom)
              (λ started.
                auction_fees k height threshold due cs
                  (if started then reset_counter x.denom left else left))
              w (try_auction-StoreOk k height x.denom w c)
              (λ started _.
                auction_fees-StoreOk k height threshold due cs
                  (if started then reset_counter x.denom left else left)
                  (try_auction k height x.denom w).1 (try_auction-StoreOk k height x.denom w c)))
        | inr e ↦ rw e (auction_fees-StoreOk k height threshold due cs left w c)
      ]

  auction_all-StoreOk :
      (k : Keeper) (height : ℕ) (w : FeesWorld sdk) → StoreOk w → StoreOk (auction_all k height w).1
  unfolding auction_all
  auction_all-StoreOk k height w c = grind (arith, auction_fees-StoreOk)

  store-emit_rewards : (w : FeesWorld sdk) → (emit_rewards w).1.chain.store ≡ w.chain.store
  unfolding emit_rewards get_emission
  store-emit_rewards w = ground arith

  -- `BeginBlocker` of the fees keeps the auction module's store consistent, however it ends.
  pub begin_blocker-IsConsistent :
      (k : Keeper) (height : ℕ) (w : FeesWorld sdk)
      → IsConsistent w.chain.store
      → IsConsistent (begin_blocker k height w).1.chain.store
  unfolding begin_blocker
  begin_blocker-IsConsistent k height w c =
      bind_rule StoreOk (auction_all k height) (λ _. emit_rewards) w
        (auction_all-StoreOk k height w c)
        λ _ _. rw store-emit_rewards (auction_all-StoreOk k height w c)
