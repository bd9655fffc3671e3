-- ===== src/AxelarCork/Validate.antt =====
-- The stateless checks of the data of x/axelarcork/types: params.go, axelarcork.go, chain_config.go,
-- axelar_proxy.go and genesis.go, with the genesis state.
pub mod Requests
use sommelier.Base.{
  ℕ, String, Bool, true, false, not, Option, none, some, List, [], ◌∷◌, ◌==◌, nat_eq, string_eq,
}
use sommelier.Base.Int.{pos, ltb_ℤ}
use sommelier.Base.Exec.{Outcome, ok, panic, sentinel, wrapped, foreign}
use sommelier.Base.Check.{Checked, refuse_with, then_check, check_all, verdict, then_verdict, deref}
use sommelier.Base.Table.Prefix.{is_some}
use sommelier.Sdk.{Sdk, Coin}
use sommelier.Cork.Validate.{Readers}
use sommelier.AxelarCork.Types.{
  AxelarCork, AxelarCorkResult, ChainConfiguration, AxelarUpgradeData, Params, Error, Chains,
  invalid_evm_address, empty_contract_call,
}

pub record ScheduledAxelarCork : Type 0 where
  pub cork : AxelarCork
  pub block_height : ℕ
  pub validator : String
  pub id : String

pub record CellarIdSet : Type 0 where
  pub chain_id : ℕ
  pub ids : List String

pub record AxelarContractCallNonce : Type 0 where
  pub chain_id : ℕ
  pub contract_address : String
  pub nonce : ℕ

-- A pointer is an optional value; the pointers in the lists are never nil here.
pub record GenesisState : Type 0 where
  pub params : Option Params
  pub chain_configurations : List ChainConfiguration
  pub cellar_ids : List CellarIdSet
  pub scheduled_corks : Option (List ScheduledAxelarCork)
  pub cork_results : Option (List AxelarCorkResult)
  pub axelar_contract_call_nonces : List AxelarContractCallNonce
  pub axelar_upgrade_data : List AxelarUpgradeData

-- What ibc-go and the SDK compute of texts and coins, beside what x/cork reads.
pub record AxelarReaders : Type 0 where
  pub readers : Readers
  -- whether `ChannelIdentifierValidator` and `PortIdentifierValidator` accept a text
  pub is_channel : String → Bool
  pub is_port : String → Bool
  -- `Coins.IsValid`
  pub valid_coins : List Coin → Bool
  -- `hex.EncodeToString`
  pub encode_hex : String → String

abbrev pub default_params : Params
default_params = record {
  enabled = false;
  ibc_channel = "";
  ibc_port = "";
  gmp_account = "";
  executor_account = "";
  timeout_duration = 0;
  cork_timeout_blocks = 10000;
}

abbrev pub default_genesis : GenesisState
default_genesis = record {
  params = some default_params;
  chain_configurations = [];
  cellar_ids = [];
  scheduled_corks = some [];
  cork_results = some [];
  axelar_contract_call_nonces = [];
  axelar_upgrade_data = [];
}

module _ {Decimal : Type 0} (b : Chains Decimal) (r : AxelarReaders) where
  unfoldable pub validate_gmp_account : String → Checked Error
  validate_gmp_account a =
      refuse_with ((a == "", foreign) ∷ (not (is_some (b.acc_address a)), foreign) ∷ [])

  unfoldable pub validate_executor_account : String → Checked Error
  validate_executor_account a =
      refuse_with ((a == "", foreign) ∷ (not (b.is_hex_address a), foreign) ∷ [])

  -- `Params.ValidateBasic`, which checks the values only where the module is enabled
  unfoldable pub validate_params : Params → Checked Error
  unfolding validate_gmp_account validate_executor_account
  validate_params p = elim p.enabled [
    | false ↦ none
    | true ↦
        then_check
          (refuse_with (
            (not (r.is_channel p.ibc_channel), foreign)
            ∷ (not (r.is_port p.ibc_port), foreign)
            ∷ []))
          (then_check (validate_gmp_account p.gmp_account) (
            then_check (validate_executor_account p.executor_account) (
              refuse_with
                ((p.timeout_duration == 0, foreign) ∷ (p.cork_timeout_blocks == 0, foreign) ∷ []))))
  ]

  unfoldable pub validate_axelar_cork : AxelarCork → Checked Error
  validate_axelar_cork c = refuse_with (
      (c.encoded_contract_call == "", sentinel empty_contract_call)
      ∷ (c.chain_id == 0, foreign)
      ∷ (not (b.is_hex_address c.target_contract_address), sentinel invalid_evm_address)
      ∷ (c.deadline == 0, foreign)
      ∷ [])

  unfoldable pub validate_scheduled_axelar_cork : ScheduledAxelarCork → Checked Error
  unfolding validate_axelar_cork
  validate_scheduled_axelar_cork s = then_check (validate_axelar_cork s.cork) (
      refuse_with (
        (s.block_height == 0, foreign)
        ∷ (not (is_some (r.readers.val_from_bech32 s.validator)), foreign)
        ∷ (not (r.readers.byte_length s.id == 64), foreign)
        ∷ []))

  unfoldable pub validate_axelar_cork_result : AxelarCorkResult → Checked Error
  unfolding validate_axelar_cork
  validate_axelar_cork_result c = then_check (validate_axelar_cork c.cork) (
      refuse_with (
        (c.block_height == 0, foreign)
        ∷ (not (r.readers.is_dec c.approval_percentage), foreign)
        ∷ []))

  unfoldable pub validate_cellar_id_set : CellarIdSet → Checked Error
  validate_cellar_id_set c = then_check (refuse_with ((c.chain_id == 0, foreign) ∷ [])) (
      check_all (λ i. refuse_with ((not (b.is_hex_address i), wrapped invalid_evm_address) ∷ []))
        c.ids)

  unfoldable pub validate_chain_configuration : ChainConfiguration → Checked Error
  validate_chain_configuration g = refuse_with (
      (g.proxy_address == "", foreign)
      ∷ (not (b.is_hex_address g.proxy_address), wrapped invalid_evm_address)
      ∷ (g.id == 0, foreign)
      ∷ (g.name == "", foreign)
      ∷ (not (r.valid_coins g.bridge_fees), foreign)
      ∷ [])

  unfoldable pub validate_contract_call_nonce : AxelarContractCallNonce → Checked Error
  validate_contract_call_nonce n = refuse_with (
      (n.nonce == 0, foreign)
      ∷ (n.contract_address == "", foreign)
      ∷ (not (b.is_hex_address n.contract_address), wrapped invalid_evm_address)
      ∷ (n.chain_id == 0, foreign)
      ∷ [])

  unfoldable pub validate_upgrade_data : AxelarUpgradeData → Checked Error
  validate_upgrade_data u = refuse_with (
      (u.chain_id == 0, foreign)
      ∷ (ltb_ℤ u.executable_height_threshold (pos 0), foreign)
      ∷ (u.payload == "", foreign)
      ∷ [])

  unfoldable pub validate_genesis : GenesisState → Outcome Error (Unit {0})
  unfolding validate_params validate_chain_configuration validate_cellar_id_set
      validate_scheduled_axelar_cork validate_axelar_cork_result validate_contract_call_nonce
      validate_upgrade_data
  validate_genesis gs = then_verdict (deref validate_params gs.params) (
      then_verdict (verdict (check_all validate_chain_configuration gs.chain_configurations)) (
        then_verdict (verdict (check_all validate_cellar_id_set gs.cellar_ids)) (
          then_verdict (deref (check_all validate_scheduled_axelar_cork) gs.scheduled_corks) (
            then_verdict (deref (check_all validate_axelar_cork_result) gs.cork_results) (
              verdict (
                then_check (check_all validate_contract_call_nonce gs.axelar_contract_call_nonces)
                  (check_all validate_upgrade_data gs.axelar_upgrade_data)))))))
