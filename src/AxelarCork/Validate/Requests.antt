-- ===== src/AxelarCork/Validate/Requests.antt =====
-- The stateless checks of messages and proposals: x/axelarcork/types/msgs.go and proposal.go.
use sommelier.Base.{ℕ, String, Bool, not, ◌||◌, [], ◌∷◌, ◌==◌, nat_eq, string_eq}
use sommelier.Base.Int.{pos, ltb_ℤ}
use sommelier.Base.Exec.{Outcome, sentinel, wrapped, foreign}
use sommelier.Base.Check.{Checked, refuse_with, then_check, verdict, then_verdict, deref}
use sommelier.Base.Table.Prefix.{is_some}
use sommelier.Sdk.{Sdk, Coin}
use sommelier.AxelarCork.Types.{
  ChainConfiguration, Error, Chains, invalid_evm_address, invalid_json, valueless_send,
}
use sommelier.AxelarCork.Messages.{MsgScheduleAxelarCorkRequest}
use sommelier.AxelarCork.Relay.{
  MsgRelayAxelarCorkRequest, MsgRelayAxelarProxyUpgradeRequest, MsgBumpAxelarCorkGasRequest,
}
use sommelier.AxelarCork.Validate.{
  CellarIdSet, AxelarReaders, validate_axelar_cork, validate_cellar_id_set,
  validate_chain_configuration,
}

pub record AxelarScheduledCorkProposal : Type 0 where
  pub title : String
  pub description : String
  pub block_height : ℕ
  pub chain_id : ℕ
  pub target_contract_address : String
  pub contract_call_proto_json : String
  pub deadline : ℕ

pub record AxelarCommunityPoolSpendProposal : Type 0 where
  pub title : String
  pub description : String
  pub recipient : String
  pub chain_id : ℕ
  pub amount : Coin

module _ ⦃sdk : Sdk⦄ where
  -- `!c.IsValid() || !c.IsPositive()`
  abbrev pub bad_token : Coin → Bool
  bad_token c = not (sdk.is_valid c) || not (ltb_ℤ (pos 0) c.amount)

module _ ⦃sdk : Sdk⦄ (b : Chains sdk.Decimal) (r : AxelarReaders) where
  abbrev pub bad_signer : String → Bool
  bad_signer a = not (is_some (b.acc_address a))

  unfoldable pub validate_schedule_axelar_cork :
      MsgScheduleAxelarCorkRequest → Outcome Error (Unit {0})
  unfolding validate_axelar_cork
  validate_schedule_axelar_cork m =
      then_verdict
        (verdict (
          refuse_with (
            (bad_signer m.signer, foreign)
            ∷ (m.chain_id == 0, foreign)
            ∷ (m.block_height == 0, foreign)
            ∷ [])))
        (deref (validate_axelar_cork b r) m.cork)

  unfoldable pub validate_relay_axelar_cork : MsgRelayAxelarCorkRequest → Checked Error
  validate_relay_axelar_cork m = refuse_with (
      (bad_signer m.signer, foreign)
      ∷ (bad_token m.token, foreign)
      ∷ (m.fee == 0, foreign)
      ∷ (m.chain_id == 0, foreign)
      ∷ (m.target_contract_address == "", foreign)
      ∷ (not (b.is_hex_address m.target_contract_address), wrapped invalid_evm_address)
      ∷ [])

  unfoldable pub validate_relay_axelar_proxy_upgrade :
      MsgRelayAxelarProxyUpgradeRequest → Checked Error
  validate_relay_axelar_proxy_upgrade m = refuse_with (
      (bad_signer m.signer, foreign)
      ∷ (bad_token m.token, foreign)
      ∷ (m.fee == 0, foreign)
      ∷ (m.chain_id == 0, foreign)
      ∷ [])

  unfoldable pub validate_bump_axelar_cork_gas : MsgBumpAxelarCorkGasRequest → Checked Error
  validate_bump_axelar_cork_gas m = refuse_with (
      (bad_signer m.signer, foreign)
      ∷ (bad_token m.token, foreign)
      ∷ (m.message_id == "", foreign)
      ∷ [])

  -- `MsgCancelAxelarCorkRequest.ValidateBasic`, of a signer, a chain and a contract
  unfoldable pub validate_cancel_axelar_cork : String → ℕ → String → Checked Error
  validate_cancel_axelar_cork signer chain contract = refuse_with (
      (bad_signer signer, foreign)
      ∷ (contract == "", foreign)
      ∷ (not (b.is_hex_address contract), wrapped invalid_evm_address)
      ∷ (chain == 0, foreign)
      ∷ [])

  abbrev pub check_abstract : String → String → Checked Error
  check_abstract title description =
      refuse_with ((not (sdk.validate_abstract title description), foreign) ∷ [])

  -- The proposals begin with a title and a description.
  unfoldable pub validate_add_axelar_managed_cellars :
      String → String → CellarIdSet → ℕ → String → Checked Error
  unfolding validate_cellar_id_set
  validate_add_axelar_managed_cellars title description ids chain domain =
      then_check (check_abstract title description) (
        then_check (validate_cellar_id_set b r ids)
          (refuse_with ((chain == 0, foreign) ∷ (not (r.readers.is_domain domain), foreign) ∷ [])))

  unfoldable pub validate_remove_axelar_managed_cellars :
      String → String → CellarIdSet → ℕ → Checked Error
  unfolding validate_cellar_id_set
  validate_remove_axelar_managed_cellars title description ids chain =
      then_check (check_abstract title description)
        (then_check (validate_cellar_id_set b r ids) (refuse_with ((chain == 0, foreign) ∷ [])))

  unfoldable pub validate_axelar_scheduled_cork_proposal :
      AxelarScheduledCorkProposal → Checked Error
  validate_axelar_scheduled_cork_proposal p = then_check (check_abstract p.title p.description) (
      refuse_with (
        (p.block_height == 0, foreign)
        ∷ (p.chain_id == 0, foreign)
        ∷ (not (b.is_hex_address p.target_contract_address), wrapped invalid_evm_address)
        ∷ (p.contract_call_proto_json == "", wrapped invalid_json)
        ∷ (not (r.readers.is_json p.contract_call_proto_json), wrapped invalid_json)
        ∷ (p.deadline == 0, foreign)
        ∷ []))

  unfoldable pub validate_community_pool_spend : AxelarCommunityPoolSpendProposal → Checked Error
  validate_community_pool_spend p = then_check (check_abstract p.title p.description) (
      refuse_with (
        (not (b.is_hex_address p.recipient), wrapped invalid_evm_address)
        ∷ (p.chain_id == 0, foreign)
        ∷ (bad_token p.amount, sentinel valueless_send)
        ∷ []))

  unfoldable pub validate_add_chain_configuration :
      String → String → ChainConfiguration → Checked Error
  unfolding validate_chain_configuration
  validate_add_chain_configuration title description g =
      then_check (check_abstract title description) (validate_chain_configuration b r g)

  -- The checks of the proposals that remove a chain's configuration or cancel an upgrade are the same.
  unfoldable pub validate_remove_chain_configuration : String → String → ℕ → Checked Error
  validate_remove_chain_configuration title description chain =
      then_check (check_abstract title description) (refuse_with ((chain == 0, foreign) ∷ []))

  unfoldable pub validate_cancel_axelar_proxy_contract_upgrade : String → String → ℕ → Checked Error
  validate_cancel_axelar_proxy_contract_upgrade title description chain =
      then_check (check_abstract title description) (refuse_with ((chain == 0, foreign) ∷ []))

  unfoldable pub validate_upgrade_axelar_proxy_contract :
      String → String → ℕ → String → Checked Error
  validate_upgrade_axelar_proxy_contract title description chain proxy =
      then_check (check_abstract title description) (
        refuse_with (
          (chain == 0, foreign) ∷ (not (b.is_hex_address proxy), wrapped invalid_evm_address) ∷ []))
