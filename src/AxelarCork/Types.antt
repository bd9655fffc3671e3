-- ===== src/AxelarCork/Types.antt =====
-- The store of x/axelarcork: x/axelarcork/types/axelarcork.go, keys.go and the accessors of
-- x/axelarcork/keeper/keeper.go and chain_config.go.
mod Data
pub use Data.*
use sommelier.Base.{
  ℕ, ◌+◌, ◌%◌, ◌^◌, String, Bool, ◌&&◌, Option, none, some, List, [], ◌∷◌, map, any, ◌==◌, nat_eq,
  string_eq, if◌then◌else◌,
}
use sommelier.Base.Table
use sommelier.Base.Table.{Key, Table, values}
use sommelier.Base.Table.Pair.{number, pair}
use sommelier.AxelarCork.Types.Data.{
  AxelarCork, AxelarCorkResult, ChainConfiguration, AxelarUpgradeData, Params, Chains, Axelar,
}

module _ {Decimal : Type 0} (b : Chains Decimal) where
  abbrev pub State : Type 0
  State = Axelar b.Address

  abbrev pub by_address : Key b.Address
  by_address = record { eq = b.address_eq; before = b.before_address }

  abbrev pub by_text : Key String
  by_text = record { eq = string_eq; before = b.before_text }

  abbrev pub scheduled_key : Key (ℕ × (ℕ × (String × (String × b.Address))))
  scheduled_key = pair number (pair number (pair by_text (pair by_text by_address)))

  abbrev pub winning_key : Key (ℕ × (ℕ × b.Address))
  winning_key = pair number (pair number by_address)

  abbrev pub contract_of : AxelarCork → b.Address
  contract_of c = b.hex_to_address c.target_contract_address

  -- `IDHash`
  abbrev pub id_hash : ℕ → AxelarCork → String
  id_hash height c = b.keccak height c.chain_id (contract_of c) c.encoded_contract_call

  -- `Equals`
  abbrev pub equals : AxelarCork → AxelarCork → Bool
  equals c d =
      b.address_eq.beq (contract_of c) (contract_of d)
      && c.encoded_contract_call == d.encoded_contract_call
      && c.deadline == d.deadline

  abbrev pub set_scheduled_axelar_cork : ℕ → ℕ → String → AxelarCork → State → State
  set_scheduled_axelar_cork chain height val c s = record s {
    scheduled =
        Table.set ⦃key = scheduled_key⦄ (chain, (height, (id_hash height c, (val, contract_of c))))
          c s.scheduled;
  }

  abbrev pub delete_scheduled_axelar_cork :
      ℕ × (ℕ × (String × (String × b.Address))) → State → State
  delete_scheduled_axelar_cork k s = record s {
    scheduled = Table.delete ⦃key = scheduled_key⦄ k s.scheduled;
  }

  abbrev pub set_winning_axelar_cork : ℕ → ℕ → AxelarCork → State → State
  set_winning_axelar_cork chain height c s = record s {
    winning = Table.set ⦃key = winning_key⦄ (chain, (height, contract_of c)) c s.winning;
  }

  abbrev pub delete_winning_axelar_cork_by_blockheight : ℕ → ℕ → AxelarCork → State → State
  delete_winning_axelar_cork_by_blockheight chain height c s = record s {
    winning = Table.delete ⦃key = winning_key⦄ (chain, (height, contract_of c)) s.winning;
  }

  -- `GetWinningAxelarCork`: the first of the chain, by height, for the contract
  unfoldable pub first_winning :
      ℕ → b.Address → Table (ℕ × (ℕ × b.Address)) AxelarCork → Option (ℕ × AxelarCork)
  first_winning chain a [] = none
  first_winning chain a ((k, c) ∷ t) =
      let rest = first_winning chain a t in
      if k.0 == chain && b.address_eq.beq a k.1.1 then some (k.1.0, c) else rest

  abbrev pub get_winning_axelar_cork : ℕ → b.Address → State → Option (ℕ × AxelarCork)
  get_winning_axelar_cork chain a s = first_winning chain a s.winning

  abbrev pub set_axelar_cork_result : ℕ → String → AxelarCorkResult → State → State
  set_axelar_cork_result chain id r s = record s {
    results = Table.set ⦃key = pair number by_text⦄ (chain, id) r s.results;
  }

  -- `GetCellarIDs`
  abbrev pub get_cellar_ids : ℕ → State → List b.Address
  get_cellar_ids chain s = elim (Table.get ⦃key = number⦄ chain s.cellar_ids) [
    | none ↦ []
    | some ids ↦ map b.hex_to_address ids
  ]

  -- `SetCellarIDs`; the chain's id in the value is that of the key
  abbrev pub set_cellar_ids : ℕ → List String → State → State
  set_cellar_ids chain ids s = record s {
    cellar_ids = Table.set ⦃key = number⦄ chain ids s.cellar_ids;
  }

  -- `SetParams`, which writes the parameters without a check
  abbrev pub set_params : Params → State → State
  set_params p s = record s { params = p }

  abbrev pub has_cellar_id : ℕ → b.Address → State → Bool
  has_cellar_id chain a s = any (λ id. b.address_eq.beq id a) (get_cellar_ids chain s)

  abbrev pub get_axelar_contract_call_nonce : ℕ → String → State → ℕ
  get_axelar_contract_call_nonce chain address s =
      elim (Table.get ⦃key = pair number by_address⦄ (chain, b.hex_to_address address) s.nonces) [
        | none ↦ 0
        | some n ↦ n
      ]

  abbrev pub set_axelar_contract_call_nonce : ℕ → String → ℕ → State → State
  set_axelar_contract_call_nonce chain address n s = record s {
    nonces = Table.set ⦃key = pair number by_address⦄ (chain, b.hex_to_address address) n s.nonces;
  }

  -- The nonce that is stored is the answer.
  abbrev pub increment_axelar_contract_call_nonce : ℕ → String → State → ℕ × State
  increment_axelar_contract_call_nonce chain address s =
      let n = (get_axelar_contract_call_nonce chain address s + 1) % 2 ^ 64 in
      (n, set_axelar_contract_call_nonce chain address n s)

  abbrev pub set_axelar_proxy_upgrade_data : ℕ → AxelarUpgradeData → State → State
  set_axelar_proxy_upgrade_data chain u s = record s {
    upgrades = Table.set ⦃key = number⦄ chain u s.upgrades;
  }

  abbrev pub get_axelar_proxy_upgrade_data : ℕ → State → Option AxelarUpgradeData
  get_axelar_proxy_upgrade_data chain s = Table.get ⦃key = number⦄ chain s.upgrades

  abbrev pub delete_axelar_proxy_upgrade_data : ℕ → State → State
  delete_axelar_proxy_upgrade_data chain s = record s {
    upgrades = Table.delete ⦃key = number⦄ chain s.upgrades;
  }

  abbrev pub get_chain_configuration_by_id : ℕ → State → Option ChainConfiguration
  get_chain_configuration_by_id chain s = Table.get ⦃key = number⦄ chain s.configurations

  abbrev pub set_chain_configuration : ℕ → ChainConfiguration → State → State
  set_chain_configuration chain g s = record s {
    configurations = Table.set ⦃key = number⦄ chain g s.configurations;
  }

  abbrev pub delete_chain_configuration_by_id : ℕ → State → State
  delete_chain_configuration_by_id chain s = record s {
    configurations = Table.delete ⦃key = number⦄ chain s.configurations;
  }

  -- `GetChainConfigurationByName`: the first that has the name
  unfoldable pub first_named : String → List ChainConfiguration → Option ChainConfiguration
  first_named name [] = none
  first_named name (g ∷ gs) =
      let rest = first_named name gs in if g.name == name then some g else rest

  abbrev pub get_chain_configuration_by_name : String → State → Option ChainConfiguration
  get_chain_configuration_by_name name s = first_named name (values ⦃key = number⦄ s.configurations)
