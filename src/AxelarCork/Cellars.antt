-- ===== src/AxelarCork/Cellars.antt =====
-- The proposals that add and remove managed cellars of a chain, and the one that spends from the
-- community pool: x/axelarcork/keeper/proposal_handler.go. The first two write the default subscriptions
-- of x/pubsub through its keeper.
pub mod Managed
use Prim.Native.String.{◌++◌ as append_text}
use sommelier.Base.{ℕ, String, Bool, Option, none, some, List, map}
use sommelier.Base.Exec.{Exec, foreign, ◌>>=◌, ◌>>◌, gets, or_panic, or_raise, modify}
use sommelier.Base.Check.{ensure}
use sommelier.Cellars.{names, keep_cellars, add_cellars, clear_each}
use sommelier.PubSub.Types.{Accounts, PubSub}
use sommelier.PubSub.Store.{get_publisher, set_default_subscription, delete_default_subscription}
use sommelier.AxelarCork.Types.{
  Chains, State, Error, get_cellar_ids, set_cellar_ids, get_chain_configuration_by_id,
}
use sommelier.AxelarCork.Validate.{CellarIdSet, AxelarReaders, validate_cellar_id_set}

pub record AddAxelarManagedCellarIdsProposal : Type 0 where
  pub chain_id : ℕ
  pub cellar_ids : Option CellarIdSet
  pub publisher_domain : String

pub record RemoveAxelarManagedCellarIdsProposal : Type 0 where
  pub chain_id : ℕ
  pub cellar_ids : Option CellarIdSet

-- The module's store beside that of x/pubsub.
pub record Managing (Store Subscriptions : Type 0) : Type 0 where
  pub store : Store
  pub pubsub : Subscriptions

-- `decimal` is how `fmt` writes a number, and `sort_texts` is `sort.Strings`.
module _ {Decimal : Type 0} (b : Chains Decimal) (r : AxelarReaders) (accounts : Accounts)
    (decimal : ℕ → String) (sort_texts : List String → List String) where
  abbrev pub World : Type 0
  World = Managing (State b) (PubSub accounts.Address)

  abbrev pub Manages : Type 0 → Type 0
  Manages A = Exec World Error A

  -- `NewAxelarSubscriptionID` of the address of an id
  abbrev pub subscription_id : ℕ → String → String
  subscription_id chain i =
      append_text (decimal chain) (append_text ":" (b.address_text (b.hex_to_address i)))

  -- The subscription that a new cellar gets.
  abbrev pub subscribe : ℕ → String → String → PubSub accounts.Address → PubSub accounts.Address
  subscribe chain domain i =
      set_default_subscription accounts
        (record { subscription_id = subscription_id chain i; publisher_domain = domain })

  -- The writes of an addition, to the chain that the configuration names.
  abbrev pub write_added : ℕ → AddAxelarManagedCellarIdsProposal → List String → World → World
  write_added id p ids w =
      let (found, pubsub) =
        add_cellars b.address_eq b.hex_to_address (subscribe p.chain_id p.publisher_domain) ids
          (get_cellar_ids b id w.store) w.pubsub in
      record {
        store = set_cellar_ids b id (sort_texts (map b.address_text found)) w.store;
        pubsub = pubsub;
      }

  unfoldable pub handle_add_managed_cellars : AddAxelarManagedCellarIdsProposal → Manages (Unit {0})
  unfolding validate_cellar_id_set add_cellars
  handle_add_managed_cellars p = do
    found ← gets (λ w. get_chain_configuration_by_id b p.chain_id w.store)
    g ← or_raise found foreign
    publisher ← gets (λ w. get_publisher accounts p.publisher_domain w.pubsub)
    _ ← or_raise publisher foreign
    ids ← or_panic p.cellar_ids
    ensure (validate_cellar_id_set b r ids)
    modify (write_added g.id p ids.ids)

  -- The writes of a removal.
  abbrev pub write_removed : ℕ → ℕ → List String → World → World
  write_removed id chain ids w = record {
    store =
        set_cellar_ids b id
          (keep_cellars b.address_eq b.hex_to_address b.address_text ids
            (get_cellar_ids b id w.store))
          w.store;
    pubsub =
        clear_each (λ i. delete_default_subscription accounts (subscription_id chain i)) ids
          w.pubsub;
  }

  unfoldable pub handle_remove_managed_cellars :
      RemoveAxelarManagedCellarIdsProposal → Manages (Unit {0})
  unfolding validate_cellar_id_set keep_cellars clear_each
  handle_remove_managed_cellars p = do
    found ← gets (λ w. get_chain_configuration_by_id b p.chain_id w.store)
    g ← or_raise found foreign
    ids ← or_panic p.cellar_ids
    ensure (validate_cellar_id_set b r ids)
    modify (write_removed g.id p.chain_id ids.ids)
