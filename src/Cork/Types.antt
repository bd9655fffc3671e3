-- ===== src/Cork/Types.antt =====
-- The data and the store of x/cork: proto/cork/v2 and the accessors of x/cork/keeper/keeper.go. What
-- go-ethereum, the staking module and the gravity bridge compute is an interface. Bytes are texts.
use sommelier.Base.{
  ℕ, ◌+◌, ◌-◌, ◌%◌, ◌^◌, String, Bool, ◌&&◌, Option, none, some, List, map, any, ltb, ◌==◌,
  string_eq, Eq, if◌then◌else◌,
}
use sommelier.Base.Int.{ℤ}
use sommelier.Base.Table
use sommelier.Base.Table.{Key, Table}
use sommelier.Base.Table.Ordered.{text_key}

-- The key of a scheduled cork: its height, id, validator and contract.
abbrev pub ScheduledKey : Type 0 → Type 0
ScheduledKey Address = ℕ × (String × (String × Address))

pub record Bridge (Decimal : Type 0) : Type 1 where
  -- `common.Address`, `HexToAddress`, `Address.String` and `IsHexAddress`
  pub Address : Type 0
  pub address_eq : Eq Address
  pub hex_to_address : String → Address
  pub address_text : Address → String
  pub is_hex_address : String → Bool
  -- the order of the keys' bytes
  pub scheduled_key : Key (ScheduledKey Address)
  -- `crypto.Keccak256Hash` of a height, a chain id, an address and a call
  pub keccak : ℕ → ℕ → Address → String → String
  -- `GetConsensusPower` of a stored validator, and `GetLastTotalPower`
  pub power : String → Option ℕ
  pub total_power : ℤ
  -- `Dec.String`
  pub text : Decimal → String
  -- `GetOrchestratorValidatorAddress`
  pub orchestrator_validator : String → Option String

pub record Cork : Type 0 where
  pub encoded_contract_call : String
  pub target_contract_address : String

pub record CorkResult : Type 0 where
  pub cork : Cork
  pub block_height : ℕ
  pub approved : Bool
  pub approval_percentage : String

-- The sentinel errors; the last three are the SDK's unauthorized, and errors without a sentinel.
pub data Error : Type 0 where
  invalid_ethereum_address unmanaged_cellar_address empty_contract_call : Error
  scheduling_in_the_past invalid_json validator_cork_capacity_reached : Error
  unauthorized zero_height unknown_publisher : Error

-- The store. A count that is not stored is read as 0.
pub record Corks (Address : Type 0) : Type 0 where
  pub scheduled : Table (ScheduledKey Address) Cork
  pub results : Table String CorkResult
  pub cellar_ids : List String
  pub invalidation_nonce : ℕ
  pub counts : Table String ℕ

module _ {Decimal : Type 0} (b : Bridge Decimal) where
  abbrev pub address_of : Cork → b.Address
  address_of c = b.hex_to_address c.target_contract_address

  -- `IDHash`, with the chain id of the mainnet
  abbrev pub id_hash : ℕ → Cork → String
  id_hash height c = b.keccak height 1 (address_of c) c.encoded_contract_call

  -- `Equals`
  abbrev pub equals : Cork → Cork → Bool
  equals c d =
      b.address_eq.beq (address_of c) (address_of d)
      && c.encoded_contract_call == d.encoded_contract_call

  abbrev pub set_scheduled_cork : ℕ → String → Cork → Corks b.Address → Corks b.Address
  set_scheduled_cork height val c s = record s {
    scheduled =
        Table.set ⦃key = b.scheduled_key⦄ (height, (id_hash height c, (val, address_of c))) c
          s.scheduled;
  }

  abbrev pub delete_scheduled_cork : ScheduledKey b.Address → Corks b.Address → Corks b.Address
  delete_scheduled_cork k s = record s {
    scheduled = Table.delete ⦃key = b.scheduled_key⦄ k s.scheduled;
  }

  -- `GetCellarIDs`
  abbrev pub get_cellar_ids : Corks b.Address → List b.Address
  get_cellar_ids s = map b.hex_to_address s.cellar_ids

  -- `HasCellarID`
  abbrev pub has_cellar_id : b.Address → Corks b.Address → Bool
  has_cellar_id a s = any (λ id. b.address_eq.beq id a) (get_cellar_ids s)

module _ {Address : Type 0} where
  abbrev pub set_cork_result : String → CorkResult → Corks Address → Corks Address
  set_cork_result id r s = record s { results = Table.set id r s.results }

  abbrev pub set_cellar_ids : List String → Corks Address → Corks Address
  set_cellar_ids ids s = record s { cellar_ids = ids }

  -- `IncrementInvalidationNonce`
  abbrev pub increment_invalidation_nonce : Corks Address → Corks Address
  increment_invalidation_nonce s = record s {
    invalidation_nonce = (s.invalidation_nonce + 1) % 2 ^ 64;
  }

  abbrev pub get_validator_cork_count : String → Corks Address → ℕ
  get_validator_cork_count val s = elim (Table.get val s.counts) [ none ↦ 0 | some n ↦ n ]

  abbrev pub set_validator_cork_count : String → ℕ → Corks Address → Corks Address
  set_validator_cork_count val n s = record s { counts = Table.set val n s.counts }

  abbrev pub increment_validator_cork_count : String → Corks Address → Corks Address
  increment_validator_cork_count val s =
      set_validator_cork_count val ((get_validator_cork_count val s + 1) % 2 ^ 64) s

  abbrev pub decrement_validator_cork_count : String → Corks Address → Corks Address
  decrement_validator_cork_count val s =
      let n = get_validator_cork_count val s in
      if ltb 0 n then set_validator_cork_count val (n - 1) s else s
