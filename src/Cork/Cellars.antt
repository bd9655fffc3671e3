-- ===== src/Cork/Cellars.antt =====
-- The governance proposals that add and remove managed cellars: x/cork/keeper/proposal_handler.go.
-- Of the pubsub keeper they change the default subscriptions, kept here as the list of their ids with
-- the publishers' domains.
pub mod Managed
use Prim.Native.String.{◌++◌ as append_text}
use sommelier.Base.{
  String, Bool, not, ◌||◌, Option, none, some, List, [], ◌∷◌, ◌++◌, map, any, ◌==◌, string_eq,
  if◌then◌else◌,
}
use sommelier.Base.Exec.{Outcome, ok, err, foreign}
use sommelier.Base.Table
use sommelier.Base.Table.{Table}
use sommelier.Base.Table.Ordered.{text_key}
use sommelier.Cellars
use sommelier.Cellars.{keep_cellars, add_cellars, clear_each}
use sommelier.Cork.Types.{Bridge, Corks, Error, get_cellar_ids, set_cellar_ids, has_cellar_id}

-- The module's store beside the publishers that the pubsub module knows and its subscriptions.
pub record CellarWorld (Address : Type 0) : Type 0 where
  pub corks : Corks Address
  pub publishers : List String
  pub default_subscriptions : Table String String

module _ {Decimal : Type 0} (b : Bridge Decimal) where
  -- Whether a list of ids names an address.
  abbrev pub names : List String → b.Address → Bool
  names ids a = Cellars.names b.address_eq b.hex_to_address ids a

  -- `NewEthereumSubscriptionID`
  abbrev pub subscription_id : String → String
  subscription_id i = append_text "1:" (b.address_text (b.hex_to_address i))

  -- `HandleRemoveManagedCellarsProposal`, which never errs
  unfoldable pub remove_managed_cellars :
      List String → CellarWorld b.Address → CellarWorld b.Address
  unfolding keep_cellars clear_each
  remove_managed_cellars removed w = record {
    corks =
        set_cellar_ids
          (keep_cellars b.address_eq b.hex_to_address b.address_text removed
            (get_cellar_ids b w.corks))
          w.corks;
    publishers = w.publishers;
    default_subscriptions =
        clear_each (λ i. Table.delete (subscription_id i)) removed w.default_subscriptions;
  }

  -- `HandleAddManagedCellarsProposal`; `sort_texts` is `sort.Strings`
  unfoldable pub add_managed_cellars :
      (List String → List String)
      → String
      → List String
      → CellarWorld b.Address
      → Outcome Error (Unit {0}) × CellarWorld b.Address
  unfolding add_cellars
  add_managed_cellars sort_texts domain added w =
      let (found, t) =
        add_cellars b.address_eq b.hex_to_address (λ i. Table.set (subscription_id i) domain) added
          (get_cellar_ids b w.corks) w.default_subscriptions in
      if any (λ d. d == domain) w.publishers
      then (
        ok tt,
        record {
          corks = set_cellar_ids (sort_texts (map b.address_text found)) w.corks;
          publishers = w.publishers;
          default_subscriptions = t;
        },
      )
      else (err foreign, w)
