-- ===== src/AxelarCork/Genesis.antt =====
-- x/axelarcork/keeper/genesis.go. A nil pointer is `none`, and what reads through it panics.
pub mod Exporting
use sommelier.Base.{
  ℕ, String, Bool, not, Option, none, some, List, [], ◌∷◌, ◌++◌, map, ◌==◌, nat_eq, if◌then◌else◌,
}
use sommelier.Base.Exec.{
  Outcome, ok, panic, ◌>>=◌, ◌>>◌, pure, gets, or_panic, modify, when, abort, for_each,
}
use sommelier.Base.Table
use sommelier.Base.Table.{Table, values}
use sommelier.Base.Table.Pair.{number}
use sommelier.Base.Table.Prefix.{is_some}
use sommelier.Sdk.{Sdk}
use sommelier.AxelarCork.Types.{
  AxelarCork, AxelarCorkResult, ChainConfiguration, AxelarUpgradeData, Params, Chains, State,
  id_hash, get_cellar_ids, set_cellar_ids, set_params, set_scheduled_axelar_cork,
  set_axelar_cork_result, set_axelar_contract_call_nonce, set_axelar_proxy_upgrade_data,
  get_chain_configuration_by_id, set_chain_configuration,
}
use sommelier.AxelarCork.Tally.{Action, ScheduledKey}
use sommelier.AxelarCork.Validate.{
  ScheduledAxelarCork, CellarIdSet, AxelarContractCallNonce, GenesisState, AxelarReaders,
}

module _ {Address : Type 0} where
  -- The entries under the prefix of a chain: `IterateScheduledAxelarCorks`.
  unfoldable pub scheduled_on :
      ℕ → List (ScheduledKey Address × AxelarCork) → List (ScheduledKey Address × AxelarCork)
  scheduled_on chain [] = []
  scheduled_on chain ((k, c) ∷ t) =
      let rest = scheduled_on chain t in if k.0 == chain then (k, c) ∷ rest else rest

-- The results under the prefix of a chain: `IterateAxelarCorkResults`.
unfoldable pub results_on : ℕ → Table (ℕ × String) AxelarCorkResult → List AxelarCorkResult
results_on chain [] = []
results_on chain ((k, c) ∷ t) =
    let rest = results_on chain t in if k.0 == chain then c ∷ rest else rest

module _ {Decimal : Type 0} (b : Chains Decimal) (r : AxelarReaders) where
  abbrev pub scheduled_axelar_cork_of : ScheduledKey b.Address × AxelarCork → ScheduledAxelarCork
  scheduled_axelar_cork_of e = record {
    cork = e.1;
    block_height = e.0.1.0;
    validator = r.readers.val_text e.0.1.1.1.0;
    id = r.encode_hex e.0.1.1.0;
  }

  abbrev pub get_scheduled_axelar_corks : ℕ → State b → List ScheduledAxelarCork
  get_scheduled_axelar_corks chain s = map scheduled_axelar_cork_of (scheduled_on chain s.scheduled)

  abbrev pub get_axelar_cork_results : ℕ → State b → List AxelarCorkResult
  get_axelar_cork_results chain s = results_on chain s.results

  -- `p.Field = append(p.Field, xs...)`, of a pointer to a struct of one slice
  abbrev pub append_to : {A : Type 0} → Option (List A) → List A → Option (Option (List A))
  append_to none xs = none
  append_to (some held) xs = some (some (held ++ xs))

  -- What the export adds for a chain; `none` is a panic.
  unfoldable pub export_chain : State b → ChainConfiguration → GenesisState → Option GenesisState
  unfolding scheduled_on results_on
  export_chain s g gs = elim (append_to gs.scheduled_corks (get_scheduled_axelar_corks g.id s)) [
    | none ↦ none
    | some scheduled ↦ elim (append_to gs.cork_results (get_axelar_cork_results g.id s)) [
      | none ↦ none
      | some results ↦ some (record {
        params = gs.params;
        chain_configurations = gs.chain_configurations ++ g ∷ [];
        cellar_ids =
            gs.cellar_ids
            ++ record { chain_id = g.id; ids = map b.address_text (get_cellar_ids b g.id s) } ∷ [];
        scheduled_corks = scheduled;
        cork_results = results;
        axelar_contract_call_nonces = gs.axelar_contract_call_nonces;
        axelar_upgrade_data = gs.axelar_upgrade_data;
      })
    ]
  ]

  -- The loop over the configurations.
  unfoldable pub export_chains :
      State b → List ChainConfiguration → GenesisState → Option GenesisState
  unfolding export_chain
  export_chains s [] gs = some gs
  export_chains s (g ∷ rest) gs = elim (export_chain s g gs) [
    | none ↦ none
    | some more ↦ export_chains s rest more
  ]

  unfoldable pub exported_nonces : Table (ℕ × b.Address) ℕ → List AxelarContractCallNonce
  exported_nonces [] = []
  exported_nonces ((k, n) ∷ t) =
      record { chain_id = k.0; contract_address = b.address_text k.1; nonce = n }
      ∷ exported_nonces t

  -- `var gs types.GenesisState` with its parameters: its two pointers to slices are nil.
  abbrev pub fresh_genesis : Params → GenesisState
  fresh_genesis p = record {
    params = some p;
    chain_configurations = [];
    cellar_ids = [];
    scheduled_corks = none;
    cork_results = none;
    axelar_contract_call_nonces = [];
    axelar_upgrade_data = [];
  }

  unfoldable pub export_genesis : State b → Option GenesisState
  unfolding export_chains exported_nonces
  export_genesis s =
      elim (export_chains s (values ⦃key = number⦄ s.configurations) (fresh_genesis s.params)) [
        | none ↦ none
        | some gs ↦ some (record gs {
          axelar_contract_call_nonces = exported_nonces s.nonces;
          axelar_upgrade_data = values ⦃key = number⦄ s.upgrades;
        })
      ]

module _ ⦃sdk : Sdk⦄ (b : Chains sdk.Decimal) (r : AxelarReaders) where
  -- The bodies of the loops of `InitGenesis`.
  abbrev pub load_configuration : ChainConfiguration → Action b (Unit {0})
  load_configuration g = modify (set_chain_configuration b g.id g)

  abbrev pub load_cellar_ids : CellarIdSet → Action b (Unit {0})
  load_cellar_ids c = modify (set_cellar_ids b c.chain_id c.ids)

  abbrev pub load_axelar_result : AxelarCorkResult → Action b (Unit {0})
  load_axelar_result c =
      modify (set_axelar_cork_result b c.cork.chain_id (id_hash b c.block_height c.cork) c)

  unfoldable pub load_scheduled_axelar_cork : ScheduledAxelarCork → Action b (Unit {0})
  load_scheduled_axelar_cork c = do
    val ← or_panic (r.readers.val_from_bech32 c.validator)
    modify (set_scheduled_axelar_cork b c.cork.chain_id c.block_height val c.cork)

  abbrev pub need_configuration : ℕ → Action b (Unit {0})
  need_configuration chain = do
    found ← gets (get_chain_configuration_by_id b chain)
    when (not (is_some found)) abort

  unfoldable pub load_nonce : AxelarContractCallNonce → Action b (Unit {0})
  load_nonce n = do
    need_configuration n.chain_id
    when (not (b.is_hex_address n.contract_address)) abort
    modify (set_axelar_contract_call_nonce b n.chain_id n.contract_address n.nonce)

  unfoldable pub load_upgrade : AxelarUpgradeData → Action b (Unit {0})
  load_upgrade u = do
    need_configuration u.chain_id
    modify (set_axelar_proxy_upgrade_data b u.chain_id u)

  -- The loops after the results', whose list is read through a pointer.
  unfoldable pub load_rest : GenesisState → Action b (Unit {0})
  unfolding load_scheduled_axelar_cork load_nonce load_upgrade for_each
  load_rest gs = do
    scheduled ← or_panic gs.scheduled_corks
    for_each load_scheduled_axelar_cork scheduled
    for_each load_nonce gs.axelar_contract_call_nonces
    for_each load_upgrade gs.axelar_upgrade_data

  -- `account_found` says whether the module's account is set.
  unfoldable pub init_genesis : Bool → GenesisState → Action b (Unit {0})
  unfolding load_rest for_each
  init_genesis account_found gs = do
    params ← or_panic gs.params
    modify (set_params b params)
    when (not account_found) abort
    for_each load_configuration gs.chain_configurations
    for_each load_cellar_ids gs.cellar_ids
    results ← or_panic gs.cork_results
    for_each load_axelar_result results
    load_rest gs
