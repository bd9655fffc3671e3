-- ===== src/AxelarCork/Genesis/Exporting.antt =====
-- What becomes of an exported genesis of x/axelarcork.
use sommelier.Base.{◌≡◌, ◌≢◌, Bool, none, some, [], arith, List-cases, inl, inr}
use sommelier.Base.Exec.{panic, for_each}
use sommelier.Base.Table.{values}
use sommelier.Base.Table.Pair.{number}
use sommelier.Sdk.{Sdk}
use sommelier.AxelarCork.Types.{Chains, State}
use sommelier.AxelarCork.Validate.{AxelarReaders, GenesisState}
use sommelier.AxelarCork.Genesis.{
  export_chain, export_chains, export_genesis, init_genesis, fresh_genesis, exported_nonces,
}

module _ ⦃sdk : Sdk⦄ (b : Chains sdk.Decimal) (r : AxelarReaders) where
  -- The genesis that a module without configured chains exports.
  abbrev pub unconfigured : State b → GenesisState
  unconfigured s = record (fresh_genesis b r s.params) {
    axelar_contract_call_nonces = exported_nonces b r s.nonces;
    axelar_upgrade_data = values ⦃key = number⦄ s.upgrades;
  }

  -- Exporting panics where a chain is configured. Where none is, the export succeeds, and loading
  -- its result does not, anywhere.
  pub export_genesis-never_loads :
      (s : State b)
      → (values ⦃key = number⦄ s.configurations ≢ [] → export_genesis b r s ≡ none)
        × (values ⦃key = number⦄ s.configurations ≡ []
            → ((export_genesis b r s ≡ some (unconfigured s))
                × ((found : Bool) (t : State b)
                    → (init_genesis b r found (unconfigured s) t).0 ≡ panic)))
  unfolding export_genesis export_chains export_chain init_genesis for_each
  export_genesis-never_loads s = elim (List-cases (values ⦃key = number⦄ s.configurations)) [
    | inl h ↦
        (λ some_chain. absurd (some_chain h), λ _. (ground (arith, h), λ found t. ground arith))
    | inr (g, rest, h) ↦ (λ _. ground (arith, h), λ no_chain. absurd (cc))
  ]
