-- ===== src/PubSub/Linked/Single.antt =====
-- The deletion of one subscriber's intent keeps the promises of x/pubsub.
use sommelier.Base.{◌≡◌, String, ◌&&◌, none, some, arith, ◌==◌, string_eq, if◌then◌else◌}
use text.Mathlib.TextEquality.{eq_iff}
use sommelier.Base.Table.{get-delete, delete-Entries}
use sommelier.Base.Table.Prefix.{keep}
use sommelier.PubSub.Types.{Accounts, SubscriberIntent}
use sommelier.PubSub.Store.{
  State, address_id, id_address, domain_address_id, delete_subscriber_intent,
}
use sommelier.PubSub.Removal.{sub_intent_at, sub_intent_for, sub_intent_of}
use sommelier.PubSub.Linked.{IsLinked}

module _ (accounts : Accounts) (s : State accounts) (h : IsLinked accounts s) (b : accounts.Address)
    (id : String) (i : SubscriberIntent) (stored : sub_intent_at accounts b id s ≡ some i) where
  abbrev without : State accounts
  without = delete_subscriber_intent accounts id b i.publisher_domain s

  pub sub_intent_at-delete_subscriber_intent :
      (a : accounts.Address) (u : String)
      → sub_intent_at accounts a u (delete_subscriber_intent accounts id b i.publisher_domain s)
        ≡ (if accounts.address_eq.beq a b && u == id then none else sub_intent_at accounts a u s)
  sub_intent_at-delete_subscriber_intent a u =
      get-delete ⦃key = address_id accounts⦄ (b, id) (a, u) s.subscriber_intents

  sub_intent_for-delete :
      (a : accounts.Address) (u : String)
      → sub_intent_for accounts u a without ≡ sub_intent_at accounts a u without
  sub_intent_for-delete a u = ground (
    arith,
    h.indexed.same_sub_intents a u,
    sub_intent_at-delete_subscriber_intent a u,
    get-delete ⦃key = id_address accounts⦄ (id, b) (u, a) s.subscriber_intents_by_subscription,
  )

  sub_intent_of-delete :
      (d : String) (a : accounts.Address) (u : String)
      → sub_intent_of accounts d a u without
        ≡ keep (λ k. k.publisher_domain == d) (sub_intent_at accounts a u without)
  sub_intent_of-delete d a u = ground (
    arith,
    stored,
    h.indexed.same_domain d a u,
    sub_intent_at-delete_subscriber_intent a u,
    accounts.address_eq.beq_iff a b,
    eq_iff u id,
    eq_iff d i.publisher_domain,
    eq_iff i.publisher_domain d,
    get-delete ⦃key = domain_address_id accounts⦄ (i.publisher_domain, (b, id)) (d, (a, u))
        s.subscriber_intents_by_domain,
  )

  pub delete_subscriber_intent-IsLinked :
      IsLinked accounts (delete_subscriber_intent accounts id b i.publisher_domain s)
  delete_subscriber_intent-IsLinked = record {
    indexed = record {
      intents = h.indexed.intents;
      sub_intents =
          delete-Entries ⦃key = address_id accounts⦄ _ (b, id) s.subscriber_intents
            h.indexed.sub_intents;
      sub_intents_of =
          delete-Entries ⦃key = domain_address_id accounts⦄ _ (i.publisher_domain, (b, id))
            s.subscriber_intents_by_domain h.indexed.sub_intents_of;
      defaults = h.indexed.defaults;
      same_intents = h.indexed.same_intents;
      same_sub_intents = sub_intent_for-delete;
      same_domain = sub_intent_of-delete;
    };
    subscribers =
        λ a u k. ground (arith, k, h.subscribers a u, sub_intent_at-delete_subscriber_intent a u);
    offers =
        λ a u k e. h.offers a u k (ground (arith, e, sub_intent_at-delete_subscriber_intent a u));
    publishers = h.publishers;
  }
