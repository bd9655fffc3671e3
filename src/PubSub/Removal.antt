-- ===== src/PubSub/Removal.antt =====
-- The lookups in the store of x/pubsub, and the agreement of its indices. The child modules have what
-- the deletions of x/pubsub/keeper/keeper.go take with them.
pub mod Loops
pub mod Intents
use sommelier.Base.{
  ◌≡◌, refl, sym, ap, ◌∙◌, String, Bool, true, false, not, ◌&&◌, ◌||◌, Option, none, some, List, [],
  ◌∷◌, any, arith, ◌==◌, string_eq, Bool-cases, Option-cases, inl, inr, if◌then◌else◌,
}
use text.Mathlib.TextEquality.{eq_iff}
use sommelier.Base.Table
use sommelier.Base.Table.{Key, Table, Entries, same, get-delete, delete-Entries}
use sommelier.Base.Table.Prefix.{is_some, keep, under, any-under_one, any-under_none, any-under-get}
use sommelier.PubSub.Types.{
  Accounts, Publisher, Subscriber, PublisherIntent, SubscriberIntent, DefaultSubscription, PubSub,
  hashed, by_address, address_of,
}
use sommelier.PubSub.Store.{
  State, domain_id, address_id, id_address, domain_address_id, delete_subscriber_intent,
  drop_subscriptions, delete_publisher_keys, delete_publisher_intent,
  get_subscriber_intents_by_publisher_domain,
}

module _ (accounts : Accounts) where
  -- Lookups in the indices.
  abbrev pub intent_at : String → String → State accounts → Option PublisherIntent
  intent_at d u s = Table.get ⦃key = domain_id accounts⦄ (d, u) s.publisher_intents

  abbrev pub intent_for : String → String → State accounts → Option PublisherIntent
  intent_for u d s = Table.get ⦃key = domain_id accounts⦄ (u, d) s.publisher_intents_by_subscription

  abbrev pub sub_intent_at : accounts.Address → String → State accounts → Option SubscriberIntent
  sub_intent_at a u s = Table.get ⦃key = address_id accounts⦄ (a, u) s.subscriber_intents

  abbrev pub sub_intent_for : String → accounts.Address → State accounts → Option SubscriberIntent
  sub_intent_for u a s =
      Table.get ⦃key = id_address accounts⦄ (u, a) s.subscriber_intents_by_subscription

  abbrev pub sub_intent_of :
      String → accounts.Address → String → State accounts → Option SubscriberIntent
  sub_intent_of d a u s =
      Table.get ⦃key = domain_address_id accounts⦄ (d, (a, u)) s.subscriber_intents_by_domain

  -- The indices hold the same intents, each under its own parts.
  pub record IsIndexed (s : State accounts) : Type 0 where
    pub intents :
        Entries ⦃key = domain_id accounts⦄
          (λ k i. (i.publisher_domain, i.subscription_id) ≡ k)
          s.publisher_intents
    pub sub_intents :
        Entries ⦃key = address_id accounts⦄
          (λ k i. (address_of accounts i, i.subscription_id) ≡ k)
          s.subscriber_intents
    pub sub_intents_of :
        Entries ⦃key = domain_address_id accounts⦄
          (λ k i. (i.publisher_domain, (address_of accounts i, i.subscription_id)) ≡ k)
          s.subscriber_intents_by_domain
    pub defaults :
        Entries ⦃key = hashed accounts⦄ (λ u x. x.subscription_id ≡ u) s.default_subscriptions
    pub same_intents : (d u : String) → intent_for u d s ≡ intent_at d u s
    pub same_sub_intents :
        (a : accounts.Address) (u : String) → sub_intent_for u a s ≡ sub_intent_at a u s
    pub same_domain :
        (d : String) (a : accounts.Address) (u : String)
        → sub_intent_of d a u s ≡ keep (λ i. i.publisher_domain == d) (sub_intent_at a u s)
