-- ===== src/Auction/Finish/Closing.antt =====
-- What a call of `FinishAuction` does, by how it ends.
use sommelier.Base.{ℕ, ◌≡◌, ◌≢◌, List, [], ◌∷◌, arith}
use sommelier.Base.Int.{ℤ, pos, ◌+ℤ◌, int_laws}
use sommelier.Base.Exec.{ok}
use sommelier.Sdk.{Sdk}
use sommelier.Auction.Types.{Auction, Bid, World}
use sommelier.Auction.Store.{delete_active_auction, set_ended_auction}
use sommelier.Auction.Finish.{finish_auction, add_payments}

-- The payments of a list of bids, as a plain sum.
abbrev pub payments : {Decimal : Type 0} → List (Bid Decimal) → ℤ
payments [] = pos 0
payments (b ∷ bids) = b.total_usomm_paid.amount +ℤ payments bids

-- The running total of the payments is the total that it starts from and their plain sum.
pub add_payments-eq-payments :
    {Decimal : Type 0} (acc : ℤ) (bids : List (Bid Decimal))
    → add_payments acc bids ≡ acc +ℤ payments bids
unfolding add_payments
add_payments-eq-payments acc [] = omega int_laws
add_payments-eq-payments acc (b ∷ bids) =
    rw (add_payments-eq-payments (acc +ℤ b.total_usomm_paid.amount) bids) (omega int_laws)

module _ ⦃sdk : Sdk⦄ (height : ℕ) (a : Auction sdk.Decimal) (w : World sdk) where
  -- A call of `FinishAuction` that succeeds takes the auction from the active ones and stores it among
  -- the ended ones with the block's height as its end; the rest of the store is as it was.
  pub finish_auction_store :
      (finish_auction height a w).0 ≡ ok tt
      → (finish_auction height a w).1.store
        ≡ set_ended_auction (record a { end_block = height }) (delete_active_auction a.id w.store)
  unfolding finish_auction
  finish_auction_store h = ground arith

  -- A call of `FinishAuction` that ends in an error or a panic leaves the store as it was.
  pub finish_auction_fails :
      (finish_auction height a w).0 ≢ ok tt → (finish_auction height a w).1.store ≡ w.store
  unfolding finish_auction
  finish_auction_fails h = ground arith
