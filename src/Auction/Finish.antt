-- ===== src/Auction/Finish.antt =====
-- `FinishAuction` of x/auction/keeper/keeper.go.
pub mod Closing
use sommelier.Base.{ℕ, List, [], ◌∷◌}
use sommelier.Base.Int.{ℤ, pos, ◌+ℤ◌, ltb_ℤ}
use sommelier.Base.Exec.{◌>>=◌, ◌>>◌, gets, or_panic, when}
use sommelier.Sdk.{Sdk}
use sommelier.Auction.Types.{Auction, Bid, base_coin_unit, module_name}
use sommelier.Auction.Validate.{is_positive}
use sommelier.Auction.Store.{get_bids_by_auction, delete_active_auction, set_ended_auction}
use sommelier.Auction.Begin.{Action, update_store, bank_call}

-- `usommProceeds = usommProceeds.Add(bid.TotalUsommPaid.Amount)` for each bid.
unfoldable pub add_payments : {Decimal : Type 0} → ℤ → List (Bid Decimal) → ℤ
add_payments acc [] = acc
add_payments acc (b ∷ bids) = add_payments (acc +ℤ b.total_usomm_paid.amount) bids

module _ ⦃sdk : Sdk⦄ where
  abbrev pub closed : ℕ → Auction sdk.Decimal → Auction sdk.Decimal
  closed height a = record a { end_block = height }

  unfoldable pub finish_auction : ℕ → Auction sdk.Decimal → Action (Unit {0})
  unfolding get_bids_by_auction
  finish_auction height a = do
    left ← gets (λ w. sdk.module_balance w.bank module_name a.starting_tokens_for_sale.denom)
    when (is_positive left)
        (bank_call (sdk.send_module_to_module module_name a.funding_module_account (left ∷ [])))
    bids ← gets (λ w. get_bids_by_auction a.id w.store)
    coin ← or_panic (sdk.new_coin base_coin_unit (add_payments (pos 0) bids))
    when (ltb_ℤ (pos 0) (add_payments (pos 0) bids))
        (bank_call (sdk.send_module_to_module module_name a.proceeds_module_account (coin ∷ [])))
    update_store (delete_active_auction a.id)
    update_store (set_ended_auction (closed height a))
