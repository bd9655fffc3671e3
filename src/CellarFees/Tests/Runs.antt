-- ===== src/CellarFees/Tests/Runs.antt =====
-- The theorems about the genesis of the fees' module, at the chain of the parent module.
use sommelier.Base.{◌≡◌, refl, true, false, none}
use sommelier.Base.Exec.{ok, panic}
use sommelier.Sdk.Scaled.{scaled, of_int}
use sommelier.CellarFees.Types.{FeesWorld}
use sommelier.CellarFees.Params.{validate_pairs}
use sommelier.CellarFees.Genesis.{GenesisState, validate_genesis, init_genesis, export_genesis}
use sommelier.CellarFees.Genesis.Roundtrip.{exported, export_genesis-loads, zero_interval-panics}
use sommelier.CellarFees.Tests.{two_counters, two_counters-IsSorted, good_fees}

-- A module without counters, on the same chain.
abbrev fresh : FeesWorld scaled
fresh = record good_fees {
  fees = record good_fees.fees { fee_accrual_counters = none; last_reward_supply_peak = none };
}

they_are_accepted : validate_pairs good_fees.fees.params ≡ none
unfolding validate_pairs of_int
they_are_accepted = refl

export_genesis-loads_example :
    (export_genesis good_fees ≡ (ok (exported good_fees two_counters 500), good_fees))
    × (validate_genesis (exported good_fees two_counters 500) ≡ none)
    × (init_genesis true (exported good_fees two_counters 500) fresh
        ≡ (ok tt, record fresh { fees = good_fees.fees }))
export_genesis-loads_example =
    export_genesis-loads good_fees fresh two_counters 500 refl refl they_are_accepted
      two_counters-IsSorted

abbrev genesis : GenesisState scaled.Decimal
genesis = exported good_fees two_counters 500

it_is_valid : validate_genesis genesis ≡ none
it_is_valid =
    (export_genesis-loads good_fees fresh two_counters 500 refl refl they_are_accepted
      two_counters-IsSorted).1

zero_interval-panics_example :
    let never = record genesis { params = record genesis.params { auction_interval = 0 } } in
    (validate_genesis never ≡ none) × ((init_genesis false never fresh).0 ≡ panic)
zero_interval-panics_example = zero_interval-panics genesis false fresh it_is_valid
