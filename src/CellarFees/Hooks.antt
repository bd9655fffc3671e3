-- ===== src/CellarFees/Hooks.antt =====
-- `AfterSendToCosmosEvent` of x/cellarfees/keeper/hooks.go. The denom of a token contract is the
-- gravity keeper's answer, and the managed cellars are those of x/cork.
pub mod Counting
use sommelier.Base.{String, Bool, not, ◌&&◌, ◌==◌, string_eq, some, if◌then◌else◌}
use sommelier.Base.Int.{ℤ, is_zero}
use sommelier.Base.Exec.{◌>>=◌, ◌>>◌, pure, gets, or_panic, when}
use sommelier.Sdk.{Sdk}
use sommelier.Auction.Types.{base_coin_unit}
use sommelier.Cork.Types.{Bridge, Corks, has_cellar_id}
use sommelier.CellarFees.Types.{Action, update_fees}
use sommelier.CellarFees.Counters.{increment_counter}

pub record SendToCosmosEvent : Type 0 where
  pub amount : ℤ
  pub cosmos_receiver : String
  pub ethereum_sender : String
  pub token_contract : String

module _ ⦃sdk : Sdk⦄ (b : Bridge sdk.Decimal) (fees_address : String)
    (erc20_to_denom : b.Address → String) where
  abbrev pub denom_of : SendToCosmosEvent → String
  denom_of e = erc20_to_denom (b.hex_to_address e.token_contract)

  -- Whether no early return is taken.
  abbrev pub is_fee : Corks b.Address → SendToCosmosEvent → Bool
  is_fee corks e =
      e.cosmos_receiver == fees_address
      && not (is_zero e.amount)
      && has_cellar_id b (b.hex_to_address e.ethereum_sender) corks
      && not (denom_of e == base_coin_unit)

  unfoldable pub after_send_to_cosmos_event :
      Corks b.Address → SendToCosmosEvent → Action (Unit {0})
  after_send_to_cosmos_event corks e = when (is_fee corks e) (
      gets (λ w. w.fees.fee_accrual_counters) >>= λ stored. or_panic stored >>= λ counters.
      update_fees
        λ f. record f { fee_accrual_counters = some (increment_counter (denom_of e) counters) })
