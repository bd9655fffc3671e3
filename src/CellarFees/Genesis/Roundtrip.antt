-- ===== src/CellarFees/Genesis/Roundtrip.antt =====
-- Exporting the state of the fees' module, and loading it again.
use text.Mathlib.TextEquality.{eq_iff}
use sommelier.Base.{ℕ, ◌≡◌, refl, Bool, true, false, none, some, [], ◌∷◌, arith}
use sommelier.Base.Int.{pos}
use sommelier.Base.Exec.{ok, panic}
use sommelier.Sdk.{Sdk}
use sommelier.CellarFees.Types.{Params, Counters, FeesWorld}
use sommelier.CellarFees.Counters.Map.{IsSorted, sort-sorted}
use sommelier.CellarFees.Params.{validate_params, validate_pairs, set_params}
use sommelier.CellarFees.Genesis.{
  GenesisState, denoms_differ, validate_counters, validate_genesis, init_genesis, export_genesis,
}

denoms_differ_self : (cs : Counters) → denoms_differ cs cs ≡ false
unfolding denoms_differ
denoms_differ_self [] = refl
denoms_differ_self (c ∷ cs) = ground (arith, eq_iff c.denom c.denom, denoms_differ_self cs)

validate_counters-sorted : (cs : Counters) → IsSorted cs → validate_counters (some cs) ≡ none
unfolding validate_counters
validate_counters-sorted cs s = rw (sort-sorted cs s, denoms_differ_self cs) refl

-- Parameters that a subspace accepts pass the stateless check.
validate_params-pairs :
    {Decimal : Type 0} (p : Params Decimal) → validate_pairs p ≡ none → validate_params p ≡ none
unfolding validate_pairs
validate_params-pairs p h = ground (arith, h)

module _ ⦃sdk : Sdk⦄ where
  -- The exported genesis of a module.
  abbrev pub exported : FeesWorld sdk → Counters → ℕ → GenesisState sdk.Decimal
  exported w cs peak = record {
    params = w.fees.params;
    fee_accrual_counters = some cs;
    last_reward_supply_peak = pos peak;
  }

  -- A module that has counters and a peak exports them with its parameters. If the counters are sorted
  -- and the parameters are ones that the subspace accepts, the exported genesis validates, and loading
  -- it into any world gives the module's state back and changes nothing else.
  pub export_genesis-loads :
      (w v : FeesWorld sdk) (cs : Counters) (peak : ℕ)
      → w.fees.fee_accrual_counters ≡ some cs
      → w.fees.last_reward_supply_peak ≡ some peak
      → validate_pairs w.fees.params ≡ none
      → IsSorted cs
      → (export_genesis w ≡ (ok (exported w cs peak), w))
        × (validate_genesis (exported w cs peak) ≡ none)
        × (init_genesis true (exported w cs peak) v ≡ (ok tt, record v { fees = w.fees }))
  unfolding export_genesis validate_genesis init_genesis set_params
  export_genesis-loads w v cs peak c p valid sorted = (
    ground (arith, c, p),
    ground (arith, validate_params-pairs w.fees.params valid, validate_counters-sorted cs sorted),
    ground (arith, c, p, valid),
  )

  -- A genesis that validates still validates with an interval of 0 between auctions, and loading it
  -- then panics.
  pub zero_interval-panics :
      (gs : GenesisState sdk.Decimal) (found : Bool) (w : FeesWorld sdk)
      → validate_genesis gs ≡ none
      → let never = record gs { params = record gs.params { auction_interval = 0 } } in
        (validate_genesis never ≡ none) × ((init_genesis found never w).0 ≡ panic)
  unfolding validate_genesis init_genesis set_params validate_pairs
  zero_interval-panics gs found w h = (ground (arith, h), ground (arith, h))
