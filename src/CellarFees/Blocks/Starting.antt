-- ===== src/CellarFees/Blocks/Starting.antt =====
-- What an attempt to auction fees off comes to.
use sommelier.Base.{ℕ, ◌≡◌, String, true, false, arith}
use sommelier.Base.Int.{is_zero}
use sommelier.Base.Exec.{Failure, Outcome, ok, err, panic}
use sommelier.Sdk.{Coin, Sdk}
use sommelier.Auction.Types.{Keeper, Error, World}
use sommelier.Auction.Begin.{begin_auction, launch, fresh_price, on_sale}
use sommelier.Auction.Begin.Opening.{Quote, Opens, begin_auction-Opens}
use sommelier.CellarFees.Types.{FeesWorld, fees_name}
use sommelier.CellarFees.Blocks.{auction_off, try_auction, is_programming_error}

module _ ⦃sdk : Sdk⦄ where
  launch_wraps :
      (a : _) (w : World sdk) (e : Failure Error)
      → (launch a w).0 ≡ err e
      → is_programming_error e ≡ false
  unfolding launch
  launch_wraps a w e h = ground arith

module _ ⦃sdk : Sdk⦄ (k : Keeper) (height : ℕ) (denom : String) (w : FeesWorld sdk) where
  -- What is sold: the whole balance of the fees' account.
  abbrev pub for_sale : Coin
  for_sale = sdk.module_balance w.chain.bank fees_name denom

  abbrev pub call : Outcome Error (Unit {0}) × World sdk
  call =
      begin_auction k height for_sale w.fees.params.initial_price_decrease_rate
        w.fees.params.price_decrease_block_interval fees_name fees_name w.chain

  call_wraps : (e : Failure Error) → call.0 ≡ err e → is_programming_error e ≡ false
  unfolding begin_auction fresh_price
  call_wraps e h = grind (arith, launch_wraps)

  -- If `beginAuction` answers that an auction has started, then no auction of the denom was active, the
  -- balance was not zero, and the auction module has opened an auction of the whole balance.
  pub try_auction_started :
      (try_auction k height denom w).0 ≡ ok true
      → (on_sale denom w.chain.store ≡ false)
        × (is_zero for_sale.amount ≡ false)
        × ((q : Quote height for_sale.denom w.chain) × Opens k height for_sale
              w.fees.params.initial_price_decrease_rate w.fees.params.price_decrease_block_interval
              fees_name fees_name w.chain q)
  unfolding try_auction auction_off
  try_auction_started h = (
    ground arith,
    ground arith,
    begin_auction-Opens k height for_sale w.fees.params.initial_price_decrease_rate
        w.fees.params.price_decrease_block_interval fees_name fees_name w.chain (ground arith),
  )

  -- If `beginAuction` panics, then so does the auction keeper's method: the two errors that it is
  -- meant to panic at never come back unwrapped.
  pub try_auction_panics : (try_auction k height denom w).0 ≡ panic → call.0 ≡ panic
  unfolding try_auction auction_off
  try_auction_panics h = grind (arith, call_wraps)
