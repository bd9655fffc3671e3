-- ===== src/Cork/Scheduling.antt =====
-- `ScheduleCork` of x/cork/keeper/msg_server.go, and the checks of x/cork/types/cork.go and msgs.go.
pub mod Effects
use sommelier.Base.{
  ℕ, String, Bool, not, Option, none, some, List, [], ◌∷◌, leb, ◌==◌, nat_eq, string_eq,
  if◌then◌else◌,
}
use sommelier.Base.Exec.{
  Failure, sentinel, wrapped, foreign, ◌>>=◌, ◌>>◌, pure, gets, or_panic, or_raise, raise_if,
  modify,
}
use sommelier.Sdk.{Sdk}
use sommelier.Cork.Types.{
  Bridge, Cork, Corks, Error, address_of, id_hash, has_cellar_id, set_scheduled_cork,
  increment_validator_cork_count,
}
use sommelier.Cork.Tally.{Action}

pub record MsgScheduleCorkRequest : Type 0 where
  pub cork : Cork
  pub block_height : ℕ
  pub signer : String

module _ ⦃sdk : Sdk⦄ (b : Bridge sdk.Decimal) where
  -- `Cork.ValidateBasic`
  unfoldable pub validate_cork : Cork → Option (Failure Error)
  validate_cork c =
      if c.encoded_contract_call == ""
      then some (sentinel Error.empty_contract_call)
      else if b.is_hex_address c.target_contract_address
      then none
      else some (sentinel Error.invalid_ethereum_address)

  -- `MsgScheduleCorkRequest.ValidateBasic`
  unfoldable pub validate_schedule_cork : MsgScheduleCorkRequest → Option (Failure Error)
  unfolding validate_cork
  validate_schedule_cork m = elim (sdk.acc_address m.signer) [
    | none ↦ some foreign
    | some _ ↦ if m.block_height == 0 then some foreign else validate_cork m.cork
  ]

  -- The id of the scheduled cork is the answer.
  unfoldable pub schedule_cork : ℕ → MsgScheduleCorkRequest → Action b String
  schedule_cork height m = do
    signer ← or_panic (sdk.acc_address m.signer)
    val ← or_raise (b.orchestrator_validator signer) (wrapped Error.unauthorized)
    managed ← gets (has_cellar_id b (address_of b m.cork))
    raise_if (not managed) (sentinel Error.unmanaged_cellar_address)
    raise_if (leb m.block_height height) (sentinel Error.scheduling_in_the_past)
    modify (set_scheduled_cork b m.block_height val m.cork)
    modify (increment_validator_cork_count val)
    pure (id_hash b m.block_height m.cork)
