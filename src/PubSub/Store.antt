-- ===== src/PubSub/Store.antt =====
-- The accessors of x/pubsub/keeper/keeper.go. A value is found here exactly if its key is set; in the
-- source a value without bytes, a message all of whose fields are empty, counts as missing too, but every
-- setter's caller writes a value whose key is one of its fields, and validation refuses an empty domain,
-- address or id. The keys of a table that begin with an address are taken to have addresses of one length,
-- so that an iteration over an address's prefix meets that address alone.
use sommelier.Base.{String, true, Option, List, [], ◌∷◌, ◌==◌, string_eq, if◌then◌else◌}
use sommelier.Base.Table
use sommelier.Base.Table.{Key, Table}
use sommelier.Base.Table.Pair.{pair}
use sommelier.Base.Table.Prefix.{under}
use sommelier.PubSub.Types.{
  Accounts, Publisher, Subscriber, PublisherIntent, SubscriberIntent, DefaultSubscription, PubSub,
  hashed, by_address, address_of,
}

module _ (accounts : Accounts) where
  abbrev pub State : Type 0
  State = PubSub accounts.Address

  -- The keys of the tables: one for each prefix that joins two or three parts.
  abbrev pub domain_id : Key (String × String)
  domain_id = pair (hashed accounts) (hashed accounts)

  abbrev pub address_id : Key (accounts.Address × String)
  address_id = pair (by_address accounts) (hashed accounts)

  abbrev pub id_address : Key (String × accounts.Address)
  id_address = pair (hashed accounts) (by_address accounts)

  abbrev pub domain_address_id : Key (String × (accounts.Address × String))
  domain_address_id = pair (hashed accounts) address_id

  abbrev pub set_publisher : Publisher → State → State
  set_publisher p s = record s {
    publishers = Table.set ⦃key = hashed accounts⦄ p.domain p s.publishers;
  }

  abbrev pub get_publisher : String → State → Option Publisher
  get_publisher domain s = Table.get ⦃key = hashed accounts⦄ domain s.publishers

  abbrev pub get_publishers : State → List Publisher
  get_publishers s = under (λ _. true) s.publishers

  abbrev pub set_subscriber : accounts.Address → Subscriber → State → State
  set_subscriber a r s = record s {
    subscribers = Table.set ⦃key = by_address accounts⦄ a r s.subscribers;
  }

  abbrev pub get_subscriber : accounts.Address → State → Option Subscriber
  get_subscriber a s = Table.get ⦃key = by_address accounts⦄ a s.subscribers

  abbrev pub get_subscribers : State → List Subscriber
  get_subscribers s = under (λ _. true) s.subscribers

  -- Both indices are written.
  abbrev pub set_publisher_intent : PublisherIntent → State → State
  set_publisher_intent i s = record s {
    publisher_intents =
        Table.set ⦃key = domain_id⦄ (i.publisher_domain, i.subscription_id) i s.publisher_intents;
    publisher_intents_by_subscription =
        Table.set ⦃key = domain_id⦄ (i.subscription_id, i.publisher_domain) i
          s.publisher_intents_by_subscription;
  }

  abbrev pub get_publisher_intent : String → String → State → Option PublisherIntent
  get_publisher_intent id domain s = Table.get ⦃key = domain_id⦄ (domain, id) s.publisher_intents

  abbrev pub get_publisher_intents : State → List PublisherIntent
  get_publisher_intents s = under (λ _. true) s.publisher_intents

  abbrev pub get_publisher_intents_by_publisher_domain : String → State → List PublisherIntent
  get_publisher_intents_by_publisher_domain domain s =
      under (λ k. k.0 == domain) s.publisher_intents

  -- All three indices are written.
  abbrev pub set_subscriber_intent : accounts.Address → SubscriberIntent → State → State
  set_subscriber_intent a i s = record s {
    subscriber_intents = Table.set ⦃key = address_id⦄ (a, i.subscription_id) i s.subscriber_intents;
    subscriber_intents_by_subscription =
        Table.set ⦃key = id_address⦄ (i.subscription_id, a) i s.subscriber_intents_by_subscription;
    subscriber_intents_by_domain =
        Table.set ⦃key = domain_address_id⦄ (i.publisher_domain, (a, i.subscription_id)) i
          s.subscriber_intents_by_domain;
  }

  abbrev pub get_subscriber_intent : String → accounts.Address → State → Option SubscriberIntent
  get_subscriber_intent id a s = Table.get ⦃key = address_id⦄ (a, id) s.subscriber_intents

  abbrev pub get_subscriber_intents : State → List SubscriberIntent
  get_subscriber_intents s = under (λ _. true) s.subscriber_intents

  abbrev pub get_subscriber_intents_by_subscriber_address :
      accounts.Address → State → List SubscriberIntent
  get_subscriber_intents_by_subscriber_address a s =
      under (λ k. accounts.address_eq.beq k.0 a) s.subscriber_intents

  abbrev pub get_subscriber_intents_by_publisher_domain : String → State → List SubscriberIntent
  get_subscriber_intents_by_publisher_domain domain s =
      under (λ k. k.0 == domain) s.subscriber_intents_by_domain

  abbrev pub delete_subscriber_intent : String → accounts.Address → String → State → State
  delete_subscriber_intent id a domain s = record s {
    subscriber_intents = Table.delete ⦃key = address_id⦄ (a, id) s.subscriber_intents;
    subscriber_intents_by_subscription =
        Table.delete ⦃key = id_address⦄ (id, a) s.subscriber_intents_by_subscription;
    subscriber_intents_by_domain =
        Table.delete ⦃key = domain_address_id⦄ (domain, (a, id)) s.subscriber_intents_by_domain;
  }

  -- The loop of `DeletePublisherIntent` over the subscribers' intents of the domain.
  unfoldable pub drop_subscriptions : String → List SubscriberIntent → State → State
  drop_subscriptions id [] s = s
  drop_subscriptions id (i ∷ intents) s = drop_subscriptions id intents (
      if id == i.subscription_id
      then delete_subscriber_intent i.subscription_id (address_of accounts i) i.publisher_domain s
      else s)

  abbrev pub delete_publisher_keys : String → String → State → State
  delete_publisher_keys id domain s = record s {
    publisher_intents = Table.delete ⦃key = domain_id⦄ (domain, id) s.publisher_intents;
    publisher_intents_by_subscription =
        Table.delete ⦃key = domain_id⦄ (id, domain) s.publisher_intents_by_subscription;
  }

  unfoldable pub delete_publisher_intent : String → String → State → State
  unfolding drop_subscriptions under
  delete_publisher_intent id domain s =
      let s' = delete_publisher_keys id domain s in
      drop_subscriptions id (get_subscriber_intents_by_publisher_domain domain s') s'

  abbrev pub set_default_subscription : DefaultSubscription → State → State
  set_default_subscription d s = record s {
    default_subscriptions =
        Table.set ⦃key = hashed accounts⦄ d.subscription_id d s.default_subscriptions;
  }

  abbrev pub get_default_subscription : String → State → Option DefaultSubscription
  get_default_subscription id s = Table.get ⦃key = hashed accounts⦄ id s.default_subscriptions

  abbrev pub get_default_subscriptions : State → List DefaultSubscription
  get_default_subscriptions s = under (λ _. true) s.default_subscriptions

  abbrev pub delete_default_subscription : String → State → State
  delete_default_subscription id s = record s {
    default_subscriptions = Table.delete ⦃key = hashed accounts⦄ id s.default_subscriptions;
  }

  -- The two loops of `DeletePublisher`.
  unfoldable pub drop_intents : List PublisherIntent → State → State
  unfolding delete_publisher_intent
  drop_intents [] s = s
  drop_intents (i ∷ intents) s =
      drop_intents intents (delete_publisher_intent i.subscription_id i.publisher_domain s)

  unfoldable pub drop_defaults : String → List DefaultSubscription → State → State
  drop_defaults domain [] s = s
  drop_defaults domain (d ∷ defaults) s =
      drop_defaults domain defaults (
        if d.publisher_domain == domain then delete_default_subscription d.subscription_id s else s)

  abbrev pub delete_publisher_key : String → State → State
  delete_publisher_key domain s = record s {
    publishers = Table.delete ⦃key = hashed accounts⦄ domain s.publishers;
  }

  unfoldable pub delete_publisher : String → State → State
  unfolding drop_intents drop_defaults under
  delete_publisher domain s =
      let s' = delete_publisher_key domain s in
      let s'' = drop_intents (get_publisher_intents_by_publisher_domain domain s') s' in
      drop_defaults domain (get_default_subscriptions s'') s''

  -- The loop of `DeleteSubscriber`.
  unfoldable pub drop_own : accounts.Address → List SubscriberIntent → State → State
  drop_own a [] s = s
  drop_own a (i ∷ intents) s =
      drop_own a intents (delete_subscriber_intent i.subscription_id a i.publisher_domain s)

  unfoldable pub delete_subscriber : accounts.Address → State → State
  unfolding drop_own under
  delete_subscriber a s =
      let s' = record s {
        subscribers = Table.delete ⦃key = by_address accounts⦄ a s.subscribers;
      } in
      drop_own a (get_subscriber_intents_by_subscriber_address a s') s'
