-- ===== src/CellarFees/Hooks/Counting.antt =====
-- Which counts the hook changes.
use sommelier.Base.{
  ◌≡◌, refl, String, not, ◌&&◌, ◌==◌, string_eq, none, some, ap, if◌then◌else◌, Bool-cases, inl,
  inr,
}
use sommelier.Base.Int.{is_zero}
use sommelier.Base.Exec.{ok}
use sommelier.Auction.Types.{base_coin_unit}
use sommelier.Base.Word.{add_u64}
use sommelier.Base.Table
use sommelier.Base.Table.{get-set}
use sommelier.Base.Table.Ordered.{text_key}
use sommelier.Sdk.{Sdk}
use sommelier.Cork.Types.{Bridge, Corks, has_cellar_id}
use sommelier.CellarFees.Types.{Counters, FeesWorld}
use sommelier.CellarFees.Counters.{increment_counter}
use sommelier.CellarFees.Counters.Map.{view, IsSorted, increment_counter-view}
use sommelier.CellarFees.Hooks.{SendToCosmosEvent, denom_of, is_fee, after_send_to_cosmos_event}

module _ ⦃sdk : Sdk⦄ (b : Bridge sdk.Decimal) (fees_address : String)
    (erc20_to_denom : b.Address → String) where
  -- If sorted counters are stored, then the hook succeeds and changes nothing but the counters, which
  -- stay sorted. The count of the event's denom is one more (or 1 if it was not counted) if the receiver
  -- is the fees' account, the amount is not zero, the sender is a managed cellar and the denom is not
  -- usomm; every other count is what it was, and all are if one of these four fails.
  pub after_send_to_cosmos_event-counts :
      (corks : Corks b.Address) (e : SendToCosmosEvent) (cs : Counters) (w : FeesWorld sdk)
      (d : String)
      → w.fees.fee_accrual_counters ≡ some cs
      → IsSorted cs
      → (cs' : Counters) × (after_send_to_cosmos_event b fees_address erc20_to_denom corks e w
          ≡ (ok tt, record w { fees = record w.fees { fee_accrual_counters = some cs' } }))
        × IsSorted cs'
        × (Table.get d (view cs') ≡ (
            if (e.cosmos_receiver == fees_address
                && not (is_zero e.amount)
                && has_cellar_id b (b.hex_to_address e.ethereum_sender) corks
                && not (erc20_to_denom (b.hex_to_address e.token_contract) == base_coin_unit))
              && d == erc20_to_denom (b.hex_to_address e.token_contract)
            then some
                (elim (Table.get (erc20_to_denom (b.hex_to_address e.token_contract)) (view cs)) [
                  | none ↦ 1
                  | some n ↦ add_u64 n 1
                ])
            else Table.get d (view cs)))
  unfolding after_send_to_cosmos_event
  after_send_to_cosmos_event-counts corks e cs w d stored sorted =
      let denom = denom_of b fees_address erc20_to_denom e in
      let (same, sorted') = increment_counter-view denom cs sorted in
      elim (Bool-cases (is_fee b fees_address erc20_to_denom corks e)) [
        | inl fee ↦ (
          increment_counter denom cs,
          rw (fee, stored) refl,
          sorted',
          rw (fee, same) (get-set denom d _ (view cs)),
        )
        | inr other ↦ (
          cs,
          rw other (
              ap (λ c. (ok tt, record w { fees = record w.fees { fee_accrual_counters = c } }))
                stored),
          sorted,
          rw other refl,
        )
      ]
