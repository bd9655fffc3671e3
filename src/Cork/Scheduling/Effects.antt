-- ===== src/Cork/Scheduling/Effects.antt =====
-- What a call of `ScheduleCork` does, by how it ends.
use sommelier.Base.{ℕ, ◌<◌, ◌≡◌, String, true, some, arith, Option-cases, inl, inr}
use sommelier.Base.Exec.{Failure, ok, err}
use sommelier.Base.Table.{get-set}
use sommelier.Base.Table.Ordered.{text_key}
use sommelier.Sdk.{Sdk}
use sommelier.Cork.Types.{
  ScheduledKey, Bridge, Corks, Error, address_of, id_hash, has_cellar_id, set_scheduled_cork,
  increment_validator_cork_count,
}
use sommelier.Cork.Tally.Clearing.{scheduled_cork}
use sommelier.Cork.Scheduling.{MsgScheduleCorkRequest, schedule_cork}

module _ ⦃sdk : Sdk⦄ (b : Bridge sdk.Decimal) (height : ℕ) (m : MsgScheduleCorkRequest)
    (s : Corks b.Address) where
  -- The state after a cork is scheduled for a validator.
  abbrev pub Schedules : String → Corks b.Address → Type 0
  Schedules val s' =
      s' ≡ increment_validator_cork_count val (set_scheduled_cork b m.block_height val m.cork s)

  -- If `ScheduleCork` succeeds, the signer is the delegate of the validator for whom it
  -- schedules, the cellar is managed and the height is to come. The answer is the cork's id, the store has changed by the validator's cork
  -- and count, and the cork is found under its key.
  pub schedule_cork-Schedules :
      (id : String)
      → (schedule_cork b height m s).0 ≡ ok id
      → (signer : String) × (val : String) × (sdk.acc_address m.signer ≡ some signer)
        × (b.orchestrator_validator signer ≡ some val)
        × (has_cellar_id b (address_of b m.cork) s ≡ true)
        × (height < m.block_height)
        × (id ≡ id_hash b m.block_height m.cork)
        × Schedules val (schedule_cork b height m s).1
        × (scheduled_cork b
              (m.block_height, (id, (val, address_of b m.cork)))
              (schedule_cork b height m s).1
            ≡ some m.cork)
  unfolding schedule_cork
  schedule_cork-Schedules id h = elim (Option-cases (sdk.acc_address m.signer)) [
    | inl e ↦ absurd (ground arith)
    | inr (signer, e) ↦ elim (Option-cases (b.orchestrator_validator signer)) [
      | inl e' ↦ absurd (ground arith)
      | inr (val, e') ↦
          let key : ScheduledKey b.Address =
            (m.block_height, (id_hash b m.block_height m.cork, (val, address_of b m.cork))) in
          (
            signer,
            val,
            e,
            e',
            ground arith,
            ground arith,
            ground arith,
            ground arith,
            ground (
              arith,
              get-set ⦃key = b.scheduled_key⦄ key key m.cork s.scheduled,
              b.scheduled_key.eq.beq_iff key key,
            ),
          )
    ]
  ]

  -- A call of `ScheduleCork` that ends in an error leaves the store as it was.
  pub schedule_cork_rejects :
      (e : Failure Error)
      → (schedule_cork b height m s).0 ≡ err e
      → (schedule_cork b height m s).1 ≡ s
  unfolding schedule_cork
  schedule_cork_rejects e h = ground arith
