-- ===== src/AxelarCork/Messages/Scheduling.antt =====
-- What a call of `ScheduleCork` of x/axelarcork does, by how it ends.
use sommelier.Base.{ℕ, ◌<◌, ◌≡◌, String, true, some, arith, Option-cases, inl, inr}
use sommelier.Base.Exec.{ok}
use sommelier.Base.Table
use sommelier.Base.Table.{get-set}
use sommelier.Sdk.{Sdk}
use sommelier.AxelarCork.Types.{
  AxelarCork, ChainConfiguration, Chains, State, scheduled_key, contract_of, id_hash, has_cellar_id,
  set_scheduled_axelar_cork, get_chain_configuration_by_id,
}
use sommelier.AxelarCork.Tally.{ScheduledKey}
use sommelier.AxelarCork.Messages.{MsgScheduleAxelarCorkRequest, schedule_axelar_cork}

module _ ⦃sdk : Sdk⦄ (b : Chains sdk.Decimal) (height : ℕ) (m : MsgScheduleAxelarCorkRequest)
    (s : State b) where
  -- A cork is scheduled for a validator on a configured chain.
  abbrev pub SchedulesAxelar : String → State b → Type 0
  SchedulesAxelar id t =
      (cork : AxelarCork) × (g : ChainConfiguration) × (signer : String) × (val : String)
      × (b.acc_address m.signer ≡ some signer)
      × (b.orchestrator_validator signer ≡ some val)
      × (m.cork ≡ some cork)
      × (s.params.enabled ≡ true)
      × (get_chain_configuration_by_id b m.chain_id s ≡ some g)
      × (has_cellar_id b g.id (contract_of b cork) s ≡ true)
      × (height < m.block_height)
      × (id ≡ id_hash b m.block_height cork)
      × (t ≡ set_scheduled_axelar_cork b g.id m.block_height val cork s)
      × (Table.get ⦃key = scheduled_key b⦄ (g.id, (m.block_height, (id, (val, contract_of b cork))))
            t.scheduled
          ≡ some cork)

  -- If `ScheduleCork` succeeds, the module is enabled, the signer is the delegate of a validator, the
  -- chain is configured, the cellar is managed on it and the height is to come. The answer is the cork's
  -- id, the store has changed by the cork of that validator, and the cork is found under its key.
  pub schedule_axelar_cork_ok :
      (id : String)
      → (schedule_axelar_cork b height m s).0 ≡ ok id
      → SchedulesAxelar id (schedule_axelar_cork b height m s).1
  unfolding schedule_axelar_cork
  schedule_axelar_cork_ok id h = elim (Option-cases (b.acc_address m.signer)) [
    | inl e ↦ absurd (ground (arith, e, h))
    | inr (signer, e) ↦ elim (Option-cases (b.orchestrator_validator signer)) [
      | inl f ↦ absurd (ground (arith, e, f, h))
      | inr (val, f) ↦ elim (Option-cases (get_chain_configuration_by_id b m.chain_id s)) [
        | inl q ↦ absurd (ground (arith, e, f, q, h))
        | inr (g, q) ↦ elim (Option-cases m.cork) [
          | inl c ↦ absurd (ground (arith, e, f, q, c, h))
          | inr (cork, c) ↦
              let key : ScheduledKey b.Address = (
                g.id,
                (m.block_height, (id_hash b m.block_height cork, (val, contract_of b cork))),
              ) in
              let facts = get-set ⦃key = scheduled_key b⦄ key key cork s.scheduled in
              let self = (scheduled_key b).eq.beq_iff key key in
              (
                cork,
                g,
                signer,
                val,
                e,
                f,
                c,
                ground (arith, e, f, q, c, h),
                q,
                ground (arith, e, f, q, c, h),
                ground (arith, e, f, q, c, h),
                ground (arith, e, f, q, c, h),
                ground (arith, e, f, q, c, h),
                ground (arith, e, f, q, c, h, facts, self),
              )
        ]
      ]
    ]
  ]
