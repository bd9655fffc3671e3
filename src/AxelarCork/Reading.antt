-- ===== src/AxelarCork/Reading.antt =====
-- What x/axelarcork reads out of its store: the lists of x/axelarcork/keeper/keeper.go and the answers
-- of query_server.go. A request that is nil is `none`. The two deletions here are not called by the module.
use sommelier.Base.{
  ℕ, String, ◌&&◌, Option, none, some, List, [], ◌∷◌, map, ◌==◌, nat_eq, string_eq, if◌then◌else◌,
}
use sommelier.Base.Exec.{foreign, ◌>>=◌, gets, or_raise, wrapped}
use sommelier.Base.Table
use sommelier.Base.Table.{Table, values}
use sommelier.Base.Table.Pair.{number, pair}
use sommelier.Base.Rising.{new_heights}
use sommelier.Queries.{invalid_argument, not_found, Query, answer}
use sommelier.AxelarCork.Types.{
  AxelarCork, AxelarCorkResult, AxelarUpgradeData, ChainConfiguration, Chains, Params, State,
  by_text, equals, get_cellar_ids, get_chain_configuration_by_id,
  delete_winning_axelar_cork_by_blockheight,
}
use sommelier.AxelarCork.Tally.{ScheduledKey, scheduled_for}
use sommelier.AxelarCork.Validate.{
  ScheduledAxelarCork, CellarIdSet, AxelarContractCallNonce, AxelarReaders,
}
use sommelier.AxelarCork.Genesis.{
  scheduled_on, scheduled_axelar_cork_of, get_scheduled_axelar_corks, get_axelar_cork_results,
  exported_nonces,
}

module _ {Address : Type 0} where
  -- The entries of an id, of the loop of `GetScheduledAxelarCorksByID`.
  unfoldable pub scheduled_under :
      String → List (ScheduledKey Address × AxelarCork) → List (ScheduledKey Address × AxelarCork)
  scheduled_under id [] = []
  scheduled_under id ((k, c) ∷ t) =
      let rest = scheduled_under id t in if k.1.1.0 == id then (k, c) ∷ rest else rest

  abbrev pub heights_of : List (ScheduledKey Address × AxelarCork) → List ℕ
  heights_of [] = []
  heights_of ((k, _) ∷ t) = k.1.0 ∷ heights_of t

module _ {Decimal : Type 0} (b : Chains Decimal) where
  -- `GetScheduledBlockHeights`
  unfoldable pub get_scheduled_block_heights : ℕ → State b → List ℕ
  unfolding new_heights scheduled_on
  get_scheduled_block_heights chain s = new_heights 0 (heights_of (scheduled_on chain s.scheduled))

  abbrev pub get_axelar_cork_result : ℕ → String → State b → Option AxelarCorkResult
  get_axelar_cork_result chain id s =
      Table.get ⦃key = pair number (by_text b)⦄ (chain, id) s.results

  abbrev pub delete_axelar_cork_result : ℕ → String → State b → State b
  delete_axelar_cork_result chain id s = record s {
    results = Table.delete ⦃key = pair number (by_text b)⦄ (chain, id) s.results;
  }

  -- The first winning cork of a chain that equals one, with its height.
  unfoldable pub first_equal :
      ℕ → AxelarCork → Table (ℕ × (ℕ × b.Address)) AxelarCork → Option (ℕ × AxelarCork)
  first_equal chain c [] = none
  first_equal chain c ((k, d) ∷ t) =
      let rest = first_equal chain c t in
      if k.0 == chain && equals b c d then some (k.1.0, d) else rest

  unfoldable pub delete_winning_axelar_cork : ℕ → AxelarCork → State b → State b
  unfolding first_equal
  delete_winning_axelar_cork chain c s = elim (first_equal chain c s.winning) [
    | none ↦ s
    | some (height, d) ↦ delete_winning_axelar_cork_by_blockheight b chain height d s
  ]

module _ {Decimal : Type 0} (b : Chains Decimal) (r : AxelarReaders) where
  abbrev pub get_scheduled_axelar_corks_by_block_height : ℕ → ℕ → State b → List ScheduledAxelarCork
  get_scheduled_axelar_corks_by_block_height chain height s =
      map (scheduled_axelar_cork_of b r) (scheduled_for chain height s.scheduled)

  abbrev pub get_scheduled_axelar_corks_by_id : ℕ → String → State b → List ScheduledAxelarCork
  get_scheduled_axelar_corks_by_id chain id s =
      map (scheduled_axelar_cork_of b r) (scheduled_under id (scheduled_on chain s.scheduled))

  -- The configured chain of a request, and its id, which the configuration repeats.
  unfoldable pub chain_of : ℕ → Query (State b) ℕ
  chain_of chain = do
    found ← gets (get_chain_configuration_by_id b chain)
    g ← or_raise found foreign
    gets (λ _. g.id)

  -- What a query about a chain answers.
  unfoldable pub answer_on : {A : Type 0} → Option ℕ → (ℕ → State b → A) → Query (State b) A
  unfolding chain_of
  answer_on request f = do
    asked ← or_raise request (wrapped invalid_argument)
    chain ← chain_of asked
    gets (f chain)

  abbrev pub query_params : Option (Unit {0}) → Query (State b) Params
  query_params request = answer request (λ s. s.params)

  -- The set of a configured chain's cellars.
  abbrev pub cellar_id_set : State b → ChainConfiguration → CellarIdSet
  cellar_id_set s g = record { chain_id = g.id; ids = map b.address_text (get_cellar_ids b g.id s) }

  abbrev pub query_cellar_ids : Option (Unit {0}) → Query (State b) (List CellarIdSet)
  query_cellar_ids request =
      answer request (λ s. map (cellar_id_set s) (values ⦃key = number⦄ s.configurations))

  abbrev pub query_cellar_ids_by_chain_id : Option ℕ → Query (State b) (List String)
  query_cellar_ids_by_chain_id request =
      answer_on request (λ chain s. map b.address_text (get_cellar_ids b chain s))

  abbrev pub query_scheduled_corks : Option ℕ → Query (State b) (List ScheduledAxelarCork)
  query_scheduled_corks request = answer_on request (get_scheduled_axelar_corks b r)

  abbrev pub query_scheduled_block_heights : Option ℕ → Query (State b) (List ℕ)
  query_scheduled_block_heights request = answer_on request (get_scheduled_block_heights b)

  abbrev pub query_cork_results : Option ℕ → Query (State b) (List AxelarCorkResult)
  query_cork_results request = answer_on request (get_axelar_cork_results b r)

  unfoldable pub query_scheduled_corks_by_block_height :
      Option (ℕ × ℕ) → Query (State b) (List ScheduledAxelarCork)
  unfolding chain_of
  query_scheduled_corks_by_block_height request = do
    asked ← or_raise request (wrapped invalid_argument)
    chain ← chain_of asked.0
    gets (get_scheduled_axelar_corks_by_block_height chain asked.1)

  unfoldable pub query_scheduled_corks_by_id :
      Option (ℕ × String) → Query (State b) (List ScheduledAxelarCork)
  unfolding chain_of
  query_scheduled_corks_by_id request = do
    asked ← or_raise request (wrapped invalid_argument)
    chain ← chain_of asked.0
    id ← or_raise (r.readers.decode_hex asked.1) (wrapped invalid_argument)
    gets (get_scheduled_axelar_corks_by_id chain id)

  unfoldable pub query_cork_result : Option (ℕ × String) → Query (State b) AxelarCorkResult
  unfolding chain_of
  query_cork_result request = do
    asked ← or_raise request (wrapped invalid_argument)
    chain ← chain_of asked.0
    id ← or_raise (r.readers.decode_hex asked.1) (wrapped invalid_argument)
    found ← gets (get_axelar_cork_result b chain id)
    or_raise found (wrapped not_found)

  abbrev pub query_chain_configurations :
      Option (Unit {0}) → Query (State b) (List ChainConfiguration)
  query_chain_configurations request = answer request (λ s. values ⦃key = number⦄ s.configurations)

  abbrev pub query_axelar_contract_call_nonces :
      Option (Unit {0}) → Query (State b) (List AxelarContractCallNonce)
  query_axelar_contract_call_nonces request = answer request (λ s. exported_nonces b r s.nonces)

  abbrev pub query_axelar_proxy_upgrade_data :
      Option (Unit {0}) → Query (State b) (List AxelarUpgradeData)
  query_axelar_proxy_upgrade_data request = answer request (λ s. values ⦃key = number⦄ s.upgrades)
