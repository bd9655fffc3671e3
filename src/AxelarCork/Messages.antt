-- ===== src/AxelarCork/Messages.antt =====
-- The messages and the proposals of x/axelarcork that change its own store alone: `ScheduleCork` of
-- x/axelarcork/keeper/msg_server.go, and proposal_handler.go. Events are left out.
pub mod Scheduling
use sommelier.Base.{ℕ, String, Bool, not, ◌*◌, Option, none, some, List, map, leb, ◌==◌, nat_eq}
use sommelier.Base.Int.{ℤ, pos}
use sommelier.Base.Word.{add_u64, int64}
use sommelier.Base.Exec.{
  sentinel, wrapped, foreign, ◌>>=◌, ◌>>◌, pure, gets, or_panic, or_raise, raise_if, modify,
}
use sommelier.Sdk.{Sdk}
use sommelier.AxelarCork.Types.{
  AxelarCork, AxelarUpgradeData, ChainConfiguration, Chains, State, disabled, unauthorized,
  unmanaged_cellar_address, scheduling_in_the_past, contract_of, id_hash, has_cellar_id,
  get_cellar_ids, set_scheduled_axelar_cork, get_chain_configuration_by_id, set_chain_configuration,
  delete_chain_configuration_by_id, set_axelar_proxy_upgrade_data, delete_axelar_proxy_upgrade_data,
}
use sommelier.AxelarCork.Tally.{Action}

-- The request's cork; a nil pointer is `none`.
pub record MsgScheduleAxelarCorkRequest : Type 0 where
  pub cork : Option AxelarCork
  pub chain_id : ℕ
  pub block_height : ℕ
  pub signer : String

abbrev pub hour_in_blocks : ℕ
hour_in_blocks = 300

abbrev pub default_executable_height_threshold : ℕ
default_executable_height_threshold = 72 * hour_in_blocks

module _ ⦃sdk : Sdk⦄ (b : Chains sdk.Decimal) where
  -- The id of the scheduled cork, before it is written in hexadecimal, is the answer.
  unfoldable pub schedule_axelar_cork : ℕ → MsgScheduleAxelarCorkRequest → Action b String
  schedule_axelar_cork height m = do
    params ← gets (λ s. s.params)
    raise_if (not params.enabled) (sentinel disabled)
    signer ← or_panic (b.acc_address m.signer)
    val ← or_raise (b.orchestrator_validator signer) (wrapped unauthorized)
    found ← gets (get_chain_configuration_by_id b m.chain_id)
    g ← or_raise found foreign
    cork ← or_panic m.cork
    managed ← gets (has_cellar_id b g.id (contract_of b cork))
    raise_if (not managed) (sentinel unmanaged_cellar_address)
    raise_if (leb m.block_height height) (sentinel scheduling_in_the_past)
    modify (set_scheduled_axelar_cork b g.id m.block_height val cork)
    pure (id_hash b m.block_height cork)

  -- `CancelScheduledCork`, which does nothing
  abbrev pub cancel_scheduled_axelar_cork : Action b Unit
  cancel_scheduled_axelar_cork = pure tt

  -- `HandleScheduledCorkProposal`, which only checks
  unfoldable pub handle_scheduled_axelar_cork : ℕ → String → Action b Unit
  handle_scheduled_axelar_cork chain target = do
    found ← gets (get_chain_configuration_by_id b chain)
    g ← or_raise found foreign
    managed ← gets (has_cellar_id b g.id (b.hex_to_address target))
    raise_if (not managed) (wrapped unmanaged_cellar_address)

  unfoldable pub handle_add_chain_configuration : ChainConfiguration → Action b Unit
  handle_add_chain_configuration g = modify (set_chain_configuration b g.id g)

  unfoldable pub handle_remove_chain_configuration : ℕ → Action b Unit
  handle_remove_chain_configuration chain = modify (delete_chain_configuration_by_id b chain)

  -- `encode_upgrade_args` is `abi.Arguments.Pack` behind `EncodeUpgradeArgs`, of texts
  unfoldable pub handle_upgrade_axelar_proxy_contract :
      (String → List String → Option String) → ℕ → ℕ → String → Action b Unit
  handle_upgrade_axelar_proxy_contract encode_upgrade_args height chain proxy = do
    found ← gets (get_chain_configuration_by_id b chain)
    _ ← or_raise found foreign
    cellars ← gets (get_cellar_ids b chain)
    payload ← or_raise (encode_upgrade_args proxy (map b.address_text cellars)) foreign
    modify (
        set_axelar_proxy_upgrade_data b chain (record {
          chain_id = chain;
          payload = payload;
          executable_height_threshold = int64 (add_u64 height default_executable_height_threshold);
        }))

  unfoldable pub handle_cancel_axelar_proxy_contract_upgrade : ℕ → Action b Unit
  handle_cancel_axelar_proxy_contract_upgrade chain = do
    found ← gets (get_chain_configuration_by_id b chain)
    _ ← or_raise found foreign
    modify (delete_axelar_proxy_upgrade_data b chain)
