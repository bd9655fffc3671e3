-- ===== src/CellarFees/Blocks.antt =====
-- `beginAuction` of x/cellarfees/keeper/auction.go and `BeginBlocker` of x/cellarfees/keeper/abci.go.
pub mod Keeping
pub mod Starting
use sommelier.Base.{
  ℕ, ◌%◌, String, Bool, true, false, ◌&&◌, not, Option, none, some, List, [], ◌∷◌, any, leb, ◌==◌,
  nat_eq, string_eq, if◌then◌else◌,
}
use sommelier.Base.Int.{is_zero}
use sommelier.Base.Word.{abs_int64}
use sommelier.Base.Exec.{
  Failure, sentinel, wrapped, foreign, Outcome, ok, err, panic, ◌>>=◌, ◌>>◌, pure, abort, gets,
  or_panic, must, when,
}
use sommelier.Sdk.{Coin, Sdk}
use sommelier.Auction.Types.{Keeper, Error, World, base_coin_unit}
use sommelier.Auction.Begin.{on_sale, begin_auction}
use sommelier.Auction.Begin
use sommelier.CellarFees.Types.{
  Counters, FeesWorld, Action, update_fees, fees_name, fee_collector_name,
}
use sommelier.CellarFees.Counters.{reset_counter}
use sommelier.CellarFees.Emission.{get_emission}

module _ ⦃sdk : Sdk⦄ where
  -- A method of the auction module or of the bank.
  abbrev pub on_chain : {A : Type 0} → Begin.Action A → Action A
  on_chain m w = let (r, c) = m w.chain in (r, record w { chain = c })

  -- Whether an error is one of the two that the switch compares with.
  abbrev pub is_programming_error : Failure Error → Bool
  is_programming_error (sentinel Error.unauthorized_funding_module) = true
  is_programming_error (sentinel Error.unauthorized_proceeds_module) = true
  is_programming_error _ = false

  -- The answer to the caller: whether an auction has started.
  abbrev pub started : Outcome Error (Unit {0}) → Outcome Error Bool
  started (ok _) = ok true
  started (err e) = if is_programming_error e then panic else ok false
  started panic = panic

  -- The call of the auction keeper, with the whole balance.
  unfoldable pub auction_off : Keeper → ℕ → Coin → Action Bool
  auction_off k height balance w =
      let p = w.fees.params in
      let (r, c) =
        begin_auction k height balance p.initial_price_decrease_rate p.price_decrease_block_interval
          fees_name fees_name w.chain in
      (started r, record w { chain = c })

  -- `beginAuction`
  unfoldable pub try_auction : Keeper → ℕ → String → Action Bool
  unfolding auction_off
  try_auction k height denom w =
      let balance = sdk.module_balance w.chain.bank fees_name denom in
      if on_sale denom w.chain.store
      then (ok false, w)
      else if is_zero balance.amount
      then (ok false, w)
      else auction_off k height balance w

  -- The loop over the counters as they were read; `left` is the slice that `ResetCounter` changes.
  unfoldable pub auction_fees : Keeper → ℕ → ℕ → Bool → Counters → Counters → Action Counters
  unfolding try_auction
  auction_fees k height threshold due [] left = pure left
  auction_fees k height threshold due (c ∷ cs) left =
      let rest = auction_fees k height threshold due cs in
      if leb threshold c.count && due
      then (try_auction k height c.denom >>= λ started.
          rest (if started then reset_counter c.denom left else left))
      else rest left

  -- `height % int64(interval)`, of which only its being 0 is used; a zero interval panics.
  abbrev pub is_due : ℕ → ℕ → Option Bool
  is_due height interval = if interval == 0 then none else some (height % abs_int64 interval == 0)

  -- The second half of `BeginBlocker`.
  unfoldable pub emit_rewards : Action (Unit {0})
  unfolding get_emission
  emit_rewards = do
    remaining ← gets (λ w. sdk.module_balance w.chain.bank fees_name base_coin_unit)
    when (not (is_zero remaining.amount)) (
        get_emission remaining.amount >>= λ emission. must (
          on_chain
            (Begin.bank_call (sdk.send_module_to_module fees_name fee_collector_name emission))))

  -- The first half.
  unfoldable pub auction_all : Keeper → ℕ → Action (Unit {0})
  unfolding auction_fees
  auction_all k height = do
    p ← gets (λ w. w.fees.params)
    stored ← gets (λ w. w.fees.fee_accrual_counters)
    counters ← or_panic stored
    due ← or_panic (is_due height p.auction_interval)
    left ← auction_fees k height p.fee_accrual_auction_threshold due counters counters
    update_fees λ f. record f { fee_accrual_counters = some left }

  unfoldable pub begin_blocker : Keeper → ℕ → Action (Unit {0})
  unfolding auction_all emit_rewards
  begin_blocker k height = auction_all k height >> emit_rewards
