-- ===== src/PubSub/Linked/Sets.antt =====
-- The writes of the keeper of x/pubsub, and the deletion of one subscriber's intent, keep the promises.
use sommelier.Base.{
  ◌≡◌, refl, sym, ap, ◌∙◌, String, true, ◌&&◌, Option, none, some, arith, ◌==◌, string_eq,
  Bool-cases, inl, inr, if◌then◌else◌,
}
use text.Mathlib.TextEquality.{eq_iff}
use sommelier.Base.Table.{get-set, set-Entries, delete-Entries}
use sommelier.Base.Table.Prefix.{is_some, keep}
use sommelier.PubSub.Types.{
  Accounts, Publisher, Subscriber, PublisherIntent, SubscriberIntent, DefaultSubscription, hashed,
  by_address, address_of,
}
use sommelier.PubSub.Store.{
  State, domain_id, address_id, id_address, domain_address_id, get_publisher, get_subscriber,
  set_publisher, set_subscriber, set_publisher_intent, set_subscriber_intent,
  set_default_subscription, delete_default_subscription,
}
use sommelier.PubSub.Removal.{intent_at, intent_for, sub_intent_at, sub_intent_for, sub_intent_of}
use sommelier.PubSub.Linked.{serves, IsLinked}
use sommelier.PubSub.Linked.Loops.{others-IsIndexed}

module _ (accounts : Accounts) (s : State accounts) (h : IsLinked accounts s) where
  pub set_publisher-IsLinked : (p : Publisher) → IsLinked accounts (set_publisher accounts p s)
  set_publisher-IsLinked p = record {
    indexed = others-IsIndexed accounts s (set_publisher accounts p s) h.indexed h.indexed.defaults;
    subscribers = h.subscribers;
    offers = h.offers;
    publishers = λ d u k.
        ground
          (arith, k, h.publishers d u, get-set ⦃key = hashed accounts⦄ p.domain d p s.publishers);
  }

  pub set_subscriber-IsLinked :
      (a : accounts.Address) (r : Subscriber) → IsLinked accounts (set_subscriber accounts a r s)
  set_subscriber-IsLinked a r = record {
    indexed =
        others-IsIndexed accounts s (set_subscriber accounts a r s) h.indexed h.indexed.defaults;
    subscribers = λ b u k.
        ground
          (arith, k, h.subscribers b u, get-set ⦃key = by_address accounts⦄ a b r s.subscribers);
    offers = h.offers;
    publishers = h.publishers;
  }

  pub set_default_subscription-IsLinked :
      (x : DefaultSubscription) → IsLinked accounts (set_default_subscription accounts x s)
  set_default_subscription-IsLinked x = record {
    indexed = others-IsIndexed accounts s (set_default_subscription accounts x s) h.indexed (
        set-Entries ⦃key = hashed accounts⦄ _ x.subscription_id x s.default_subscriptions refl
          h.indexed.defaults);
    subscribers = h.subscribers;
    offers = h.offers;
    publishers = h.publishers;
  }

  pub delete_default_subscription-IsLinked :
      (u : String) → IsLinked accounts (delete_default_subscription accounts u s)
  delete_default_subscription-IsLinked u = record {
    indexed =
        others-IsIndexed accounts s (delete_default_subscription accounts u s) h.indexed
          (delete-Entries ⦃key = hashed accounts⦄ _ u s.default_subscriptions h.indexed.defaults);
    subscribers = h.subscribers;
    offers = h.offers;
    publishers = h.publishers;
  }

  -- A publisher's intent is written where its publisher is known and the intent is not.
  module _ (i : PublisherIntent)
      (known : is_some (get_publisher accounts i.publisher_domain s) ≡ true)
      (fresh : intent_at accounts i.publisher_domain i.subscription_id s ≡ none) where
    abbrev with_offer : State accounts
    with_offer = set_publisher_intent accounts i s

    intent_at-set :
        (d u : String)
        → intent_at accounts d u with_offer ≡ (
            if d == i.publisher_domain && u == i.subscription_id
            then some i
            else intent_at accounts d u s)
    intent_at-set d u =
        get-set ⦃key = domain_id accounts⦄ (i.publisher_domain, i.subscription_id) (d, u) i
          s.publisher_intents

    intent_for-set :
        (d u : String) → intent_for accounts u d with_offer ≡ intent_at accounts d u with_offer
    intent_for-set d u = ground (
      arith,
      h.indexed.same_intents d u,
      intent_at-set d u,
      get-set ⦃key = domain_id accounts⦄ (i.subscription_id, i.publisher_domain) (u, d) i
          s.publisher_intents_by_subscription,
    )

    pub set_publisher_intent-IsLinked : IsLinked accounts (set_publisher_intent accounts i s)
    set_publisher_intent-IsLinked = record {
      indexed = record {
        intents =
            set-Entries ⦃key = domain_id accounts⦄ _ (i.publisher_domain, i.subscription_id) i
              s.publisher_intents refl h.indexed.intents;
        sub_intents = h.indexed.sub_intents;
        sub_intents_of = h.indexed.sub_intents_of;
        defaults = h.indexed.defaults;
        same_intents = intent_for-set;
        same_sub_intents = h.indexed.same_sub_intents;
        same_domain = h.indexed.same_domain;
      };
      subscribers = h.subscribers;
      offers = λ a u k e.
          let offer = h.offers a u k e in
          ground (
            arith,
            offer,
            fresh,
            intent_at-set k.publisher_domain u,
            eq_iff k.publisher_domain i.publisher_domain,
            eq_iff u i.subscription_id,
          );
      publishers = λ d u k.
          ground
            (arith, k, known, h.publishers d u, intent_at-set d u, eq_iff d i.publisher_domain);
    }

  -- A subscriber's intent is written where none of its id is known, and what it needs is.
  module _ (i : SubscriberIntent)
      (known : is_some (get_subscriber accounts (address_of accounts i) s) ≡ true)
      (fresh : sub_intent_at accounts (address_of accounts i) i.subscription_id s ≡ none)
      (served : serves (intent_at accounts i.publisher_domain i.subscription_id s) i ≡ true) where
    abbrev with_intent : State accounts
    with_intent = set_subscriber_intent accounts (address_of accounts i) i s

    sub_intent_at-set :
        (a : accounts.Address) (u : String)
        → sub_intent_at accounts a u with_intent ≡ (
            if accounts.address_eq.beq a (address_of accounts i) && u == i.subscription_id
            then some i
            else sub_intent_at accounts a u s)
    sub_intent_at-set a u =
        get-set ⦃key = address_id accounts⦄ (address_of accounts i, i.subscription_id) (a, u) i
          s.subscriber_intents

    sub_intent_for-set :
        (a : accounts.Address) (u : String)
        → sub_intent_for accounts u a with_intent ≡ sub_intent_at accounts a u with_intent
    sub_intent_for-set a u = ground (
      arith,
      h.indexed.same_sub_intents a u,
      sub_intent_at-set a u,
      get-set ⦃key = id_address accounts⦄ (i.subscription_id, address_of accounts i) (u, a) i
          s.subscriber_intents_by_subscription,
    )

    sub_intent_of-set :
        (d : String) (a : accounts.Address) (u : String)
        → sub_intent_of accounts d a u with_intent
          ≡ keep (λ k. k.publisher_domain == d) (sub_intent_at accounts a u with_intent)
    sub_intent_of-set d a u = ground (
      arith,
      fresh,
      h.indexed.same_domain d a u,
      sub_intent_at-set a u,
      accounts.address_eq.beq_iff a (address_of accounts i),
      eq_iff u i.subscription_id,
      eq_iff d i.publisher_domain,
      eq_iff i.publisher_domain d,
      get-set ⦃key = domain_address_id accounts⦄
          (i.publisher_domain, (address_of accounts i, i.subscription_id)) (d, (a, u)) i
          s.subscriber_intents_by_domain,
    )

    pub set_subscriber_intent-IsLinked :
        IsLinked accounts (set_subscriber_intent accounts (address_of accounts i) i s)
    set_subscriber_intent-IsLinked = record {
      indexed = record {
        intents = h.indexed.intents;
        sub_intents =
            set-Entries ⦃key = address_id accounts⦄ _ (address_of accounts i, i.subscription_id) i
              s.subscriber_intents refl h.indexed.sub_intents;
        sub_intents_of =
            set-Entries ⦃key = domain_address_id accounts⦄ _
              (i.publisher_domain, (address_of accounts i, i.subscription_id)) i
              s.subscriber_intents_by_domain refl h.indexed.sub_intents_of;
        defaults = h.indexed.defaults;
        same_intents = h.indexed.same_intents;
        same_sub_intents = sub_intent_for-set;
        same_domain = sub_intent_of-set;
      };
      subscribers = λ a u k. ground (
        arith,
        k,
        known,
        h.subscribers a u,
        sub_intent_at-set a u,
        accounts.address_eq.beq_iff a (address_of accounts i),
      );
      offers = λ a u k e.
          elim (Bool-cases
            (accounts.address_eq.beq a (address_of accounts i) && u == i.subscription_id)) [
              | inl q ↦
                  let same_u : u ≡ i.subscription_id =
                    ground (arith, q, eq_iff u i.subscription_id) in
                  let same_i : ◌≡◌ {A = Option SubscriberIntent} (some i) (some k) =
                    ground (arith, q, sym (sub_intent_at-set a u) ∙ e) in
                  let same_k : i ≡ k = ap (λ o. elim o [ none ↦ i | some x ↦ x ]) same_i in
                  rw (same_u, ← same_k) served
              | inr q ↦ h.offers a u k (ground (arith, q, sym (sub_intent_at-set a u) ∙ e))
            ];
      publishers = h.publishers;
    }
