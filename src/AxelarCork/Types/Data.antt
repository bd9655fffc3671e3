-- ===== src/AxelarCork/Types/Data.antt =====
-- The data of x/axelarcork: proto/axelarcork/v1, the errors, and what other modules and go-ethereum
-- compute, as an interface. Bytes are texts.
use sommelier.Base.{ℕ, String, Bool, Option, List, Eq}
use sommelier.Base.Int.{ℤ}
use sommelier.Base.Table.{Table}
use sommelier.Sdk.{Coin}

pub record AxelarCork : Type 0 where
  pub encoded_contract_call : String
  pub chain_id : ℕ
  pub target_contract_address : String
  pub deadline : ℕ

pub record AxelarCorkResult : Type 0 where
  pub cork : AxelarCork
  pub block_height : ℕ
  pub approved : Bool
  pub approval_percentage : String

pub record ChainConfiguration : Type 0 where
  pub name : String
  pub id : ℕ
  pub proxy_address : String
  pub bridge_fees : List Coin

pub record AxelarUpgradeData : Type 0 where
  pub chain_id : ℕ
  pub payload : String
  pub executable_height_threshold : ℤ

pub record Params : Type 0 where
  pub enabled : Bool
  pub ibc_channel : String
  pub ibc_port : String
  pub gmp_account : String
  pub executor_account : String
  pub timeout_duration : ℕ
  pub cork_timeout_blocks : ℕ

-- The sentinels, the SDK's unauthorized, and errors without a sentinel.
pub data Error : Type 0 where
  invalid_evm_address unmanaged_cellar_address empty_contract_call scheduling_in_the_past : Error
  invalid_json valueless_send disabled unauthorized unnamed : Error

-- What of a packet and of its memo the module reads.
pub record PacketData : Type 0 where
  pub sender : String
  pub receiver : String
  pub memo : String

pub record AxelarBody : Type 0 where
  pub destination_chain : String
  pub destination_address : String
  pub payload : String

-- What go-ethereum, the SDK and the other modules compute.
pub record Chains (Decimal : Type 0) : Type 1 where
  -- `common.Address`, `HexToAddress`, `Address.String` and `IsHexAddress`
  pub Address : Type 0
  pub address_eq : Eq Address
  pub hex_to_address : String → Address
  pub address_text : Address → String
  pub is_hex_address : String → Bool
  -- the order of the bytes of addresses, and of ids and validators
  pub before_address : Address → Address → Bool
  pub before_text : String → String → Bool
  -- `crypto.Keccak256Hash` of a height, a chain id, an address and a call
  pub keccak : ℕ → ℕ → Address → String → String
  -- `GetConsensusPower` of a stored validator, and `GetLastTotalPower`
  pub power : String → Option ℕ
  pub total_power : ℤ
  -- `Dec.String`
  pub text : Decimal → String
  -- `AccAddressFromBech32`, as a text that is equal for equal addresses, and the module's account
  pub acc_address : String → Option String
  pub module_account : String
  -- `GetOrchestratorValidatorAddress`
  pub orchestrator_validator : String → Option String
  -- `json.Unmarshal` of a packet's data and of its memo
  pub packet_data : String → Option PacketData
  pub axelar_body : String → Option AxelarBody
  -- `abi.Arguments.Unpack` for the arguments of a logic call and of an upgrade
  pub unpack_logic_call : String → Option (ℕ × (Address × (ℕ × (ℕ × String))))
  pub unpack_upgrade : String → Option (ℕ × (Address × List Address))

-- One table for each prefix of keys.go. A scheduled cork has its chain, height, id, validator and
-- contract in its key, a winning cork its chain, height and contract.
pub record Axelar (Address : Type 0) : Type 0 where
  pub scheduled : Table (ℕ × (ℕ × (String × (String × Address)))) AxelarCork
  pub winning : Table (ℕ × (ℕ × Address)) AxelarCork
  pub results : Table (ℕ × String) AxelarCorkResult
  pub cellar_ids : Table ℕ (List String)
  pub configurations : Table ℕ ChainConfiguration
  pub nonces : Table (ℕ × Address) ℕ
  pub upgrades : Table ℕ AxelarUpgradeData
  pub params : Params
