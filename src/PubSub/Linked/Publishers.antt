-- ===== src/PubSub/Linked/Publishers.antt =====
-- What `DeletePublisher` takes with a publisher, and that it keeps the promises.
use sommelier.Base.{
  ◌≡◌, refl, ◌∙◌, String, true, false, not, ◌&&◌, ◌||◌, none, some, List, any, arith, ◌==◌,
  string_eq, Bool-cases, Option-cases, inl, inr, if◌then◌else◌,
}
use text.Mathlib.TextEquality.{eq_iff}
use sommelier.Base.Table.{same, get-delete, get-Entries, delete-Entries}
use sommelier.Base.Table.Prefix.{
  is_some, under, keep, keep_ext_some, any-under_none, any-under_one, any-under-get,
}
use sommelier.PubSub.Types.{
  Accounts, PublisherIntent, SubscriberIntent, DefaultSubscription, hashed,
}
use sommelier.PubSub.Store.{
  State, domain_id, get_publisher, get_default_subscription, get_default_subscriptions,
  delete_default_subscription, drop_intents, delete_publisher_key, delete_publisher,
  delete_publisher_intent,
}
use sommelier.PubSub.Removal.{intent_at, sub_intent_at, IsIndexed}
use sommelier.PubSub.Removal.Intents.{delete_publisher_intent-IsIndexed}
use sommelier.PubSub.Linked.{HasSubscribers, HasOffers, HasPublisher, IsLinked}
use sommelier.PubSub.Linked.Deletes.{
  get_publisher-delete_publisher_intent, delete_publisher_intent-HasSubscribers,
  delete_publisher_intent-HasOffers, delete_publisher_intent-HasPublisher,
}
use sommelier.PubSub.Linked.Loops.{
  others-IsIndexed, drop_intents-Keeps, drop_defaults-Keeps, intent_at-drop_intents,
  sub_intent_at-drop_intents, get_default-drop_defaults,
}

module _ (accounts : Accounts) (d : String) (s : State accounts) where
  abbrev without_key : State accounts
  without_key = delete_publisher_key accounts d s

  abbrev own_intents : List PublisherIntent
  own_intents = under (λ k. k.0 == d) s.publisher_intents

  abbrev without_intents : State accounts
  without_intents = drop_intents accounts own_intents without_key

  -- What each deletion of an intent keeps while the publisher is gone and its intents are not.
  abbrev Deleting : State accounts → Type 0
  Deleting t =
      IsIndexed accounts t
      × HasSubscribers accounts t
      × HasOffers accounts t
      × ((d' : String) → not (d' == d) ≡ true → HasPublisher accounts d' t)
      × ((d' : String)
          → get_publisher accounts d' t ≡ (if d' == d then none else get_publisher accounts d' s))

  delete_publisher_intent-Deleting :
      (u d' : String) (t : State accounts)
      → Deleting t
      → Deleting (delete_publisher_intent accounts u d' t)
  delete_publisher_intent-Deleting u d' t (c, subscribers, offers, publishers, known) = (
    delete_publisher_intent-IsIndexed accounts u d' t c,
    delete_publisher_intent-HasSubscribers accounts u d' t c subscribers,
    delete_publisher_intent-HasOffers accounts u d' t c offers,
    λ d'' e. delete_publisher_intent-HasPublisher accounts u d' t c d'' (publishers d'' e),
    λ d''. get_publisher-delete_publisher_intent accounts u d' t d'' ∙ known d'',
  )

  module _ (h : IsLinked accounts s) where
    without_key-Deleting : Deleting without_key
    without_key-Deleting = (
      others-IsIndexed accounts s without_key h.indexed h.indexed.defaults,
      h.subscribers,
      h.offers,
      (λ d' e u k.
          ground
            (arith, h.publishers d' u, k, e, get-delete ⦃key = hashed accounts⦄ d d' s.publishers)),
      (λ d'. get-delete ⦃key = hashed accounts⦄ d d' s.publishers),
    )

    without_intents-Deleting : Deleting without_intents
    without_intents-Deleting =
        drop_intents-Keeps accounts Deleting delete_publisher_intent-Deleting own_intents
          without_key without_key-Deleting

    -- The intents that go are those of the publisher.
    any-own :
        (u : String)
        → any
            (λ i. same ⦃key = domain_id accounts⦄ (d, u) (i.publisher_domain, i.subscription_id))
            own_intents
          ≡ is_some (intent_at accounts d u s)
    any-own u =
        any-under_one ⦃key = domain_id accounts⦄ (λ k. k.0 == d)
          (λ i. (i.publisher_domain, i.subscription_id))
          (λ i. same ⦃key = domain_id accounts⦄ (d, u) (i.publisher_domain, i.subscription_id))
          (d, u) s.publisher_intents h.indexed.intents
          (λ i. ground (arith, eq_iff i.publisher_domain d, eq_iff d i.publisher_domain))

    any_other :
        (d' u : String)
        → (d' == d) ≡ false
        → any
            (λ i. same ⦃key = domain_id accounts⦄ (d', u) (i.publisher_domain, i.subscription_id))
            own_intents
          ≡ false
    any_other d' u e =
        any-under_none ⦃key = domain_id accounts⦄ (λ k. k.0 == d)
          (λ i. (i.publisher_domain, i.subscription_id))
          (λ i. same ⦃key = domain_id accounts⦄ (d', u) (i.publisher_domain, i.subscription_id))
          s.publisher_intents h.indexed.intents
          (λ i.
            ground
              (arith, e, eq_iff d' d, eq_iff i.publisher_domain d, eq_iff d' i.publisher_domain))

    any_served :
        (u : String) (k : SubscriberIntent)
        → any (λ i. i.subscription_id == u && k.publisher_domain == i.publisher_domain) own_intents
          ≡ (k.publisher_domain == d && is_some (intent_at accounts d u s))
    any_served u k = elim (Bool-cases (k.publisher_domain == d)) [
      | inl e ↦ rw e (
          any-under_one ⦃key = domain_id accounts⦄ (λ k. k.0 == d)
            (λ i. (i.publisher_domain, i.subscription_id))
            (λ i. i.subscription_id == u && k.publisher_domain == i.publisher_domain) (d, u)
            s.publisher_intents h.indexed.intents
            (λ i. ground (
              arith,
              e,
              eq_iff i.publisher_domain d,
              eq_iff d i.publisher_domain,
              eq_iff k.publisher_domain d,
              eq_iff k.publisher_domain i.publisher_domain,
              eq_iff i.subscription_id u,
              eq_iff u i.subscription_id,
            )))
      | inr e ↦ rw e (
          any-under_none ⦃key = domain_id accounts⦄ (λ k. k.0 == d)
            (λ i. (i.publisher_domain, i.subscription_id))
            (λ i. i.subscription_id == u && k.publisher_domain == i.publisher_domain)
            s.publisher_intents h.indexed.intents
            (λ i. ground (
              arith,
              e,
              eq_iff k.publisher_domain d,
              eq_iff i.publisher_domain d,
              eq_iff k.publisher_domain i.publisher_domain,
            )))
    ]

    intent_at-without_intents :
        (d' u : String)
        → intent_at accounts d' u without_intents
          ≡ (if d' == d then none else intent_at accounts d' u s)
    intent_at-without_intents d' u =
        intent_at-drop_intents accounts own_intents without_key d' u (without_key-Deleting.0)
        ∙ elim (Bool-cases (d' == d)) [
          | inl e ↦
              ground (arith, e, eq_iff d' d, any-own u, Option-cases (intent_at accounts d u s))
          | inr e ↦ ground (arith, e, any_other d' u e)
        ]

    sub_intent_at-without_intents :
        (a : accounts.Address) (u : String)
        → sub_intent_at accounts a u without_intents
          ≡ keep (λ k. not (k.publisher_domain == d)) (sub_intent_at accounts a u s)
    sub_intent_at-without_intents a u =
        sub_intent_at-drop_intents accounts own_intents without_key a u (without_key-Deleting.0)
        ∙ keep_ext_some
            (λ k. not (
              any (λ i. i.subscription_id == u && k.publisher_domain == i.publisher_domain)
                own_intents))
            (λ k. not (k.publisher_domain == d)) (sub_intent_at accounts a u s)
            (λ k e. ground (arith, any_served u k, served_some k e))
      where
        served_some :
            (k : SubscriberIntent)
            → sub_intent_at accounts a u s ≡ some k
            → (not (k.publisher_domain == d) || is_some (intent_at accounts d u s)) ≡ true
        served_some k e =
            let offer = h.offers a u k e in ground (arith, offer, eq_iff k.publisher_domain d)

  -- The loop over the default subscriptions changes no other table.
  after_defaults :
      (P : State accounts → Type 0)
      → ((u : String) (t : State accounts) → P t → P (delete_default_subscription accounts u t))
      → P without_intents
      → P (delete_publisher accounts d s)
  unfolding delete_publisher
  after_defaults P step h =
      drop_defaults-Keeps accounts P step d (get_default_subscriptions accounts without_intents)
        without_intents h

  module _ (h : IsLinked accounts s) where
    pub intent_at-delete_publisher :
        (d' u : String)
        → intent_at accounts d' u (delete_publisher accounts d s)
          ≡ (if d' == d then none else intent_at accounts d' u s)
    intent_at-delete_publisher d' u =
        after_defaults
          (λ t. intent_at accounts d' u t ≡ (if d' == d then none else intent_at accounts d' u s))
          (λ _ _ k. k) (intent_at-without_intents h d' u)

    pub sub_intent_at-delete_publisher :
        (a : accounts.Address) (u : String)
        → sub_intent_at accounts a u (delete_publisher accounts d s)
          ≡ keep (λ k. not (k.publisher_domain == d)) (sub_intent_at accounts a u s)
    sub_intent_at-delete_publisher a u =
        after_defaults
          (λ t.
            sub_intent_at accounts a u t
            ≡ keep (λ k. not (k.publisher_domain == d)) (sub_intent_at accounts a u s))
          (λ _ _ k. k) (sub_intent_at-without_intents h a u)

    pub get_publisher-delete_publisher :
        (d' : String)
        → get_publisher accounts d' (delete_publisher accounts d s)
          ≡ (if d' == d then none else get_publisher accounts d' s)
    get_publisher-delete_publisher d' =
        let (_, _, _, _, known) = without_intents-Deleting h in
        after_defaults
          (λ t.
            get_publisher accounts d' t ≡ (if d' == d then none else get_publisher accounts d' s))
          (λ _ _ k. k) ((known d'))

    pub get_default-delete_publisher :
        (u : String) (x : DefaultSubscription)
        → get_default_subscription accounts u (delete_publisher accounts d s) ≡ some x
        → (x.publisher_domain == d) ≡ false
    unfolding delete_publisher
    get_default-delete_publisher u x e =
        let t = without_intents in
        let c = (without_intents-Deleting h).0 in
        let step =
          get_default-drop_defaults accounts d (get_default_subscriptions accounts t) t u in
        elim (Bool-cases (x.publisher_domain == d)) [
          | inl q ↦
              let stored : get_default_subscription accounts u t ≡ some x =
                ground (arith, e, step) in
              let own : x.subscription_id ≡ u =
                get-Entries ⦃key = hashed accounts⦄ (λ u x. x.subscription_id ≡ u) u x
                  t.default_subscriptions c.defaults stored in
              let met =
                any-under-get ⦃key = hashed accounts⦄ (λ _. true)
                  (λ x. x.publisher_domain == d && u == x.subscription_id) u x
                  t.default_subscriptions stored refl
                  (ground (arith, q, own, eq_iff u x.subscription_id)) in
              absurd (ground (arith, met, step, e))
          | inr q ↦ q
        ]

    pub delete_publisher-IsLinked : IsLinked accounts (delete_publisher accounts d s)
    delete_publisher-IsLinked =
        let (c, subscribers, offers, publishers, known) = without_intents-Deleting h in
        record {
          indexed =
              after_defaults (IsIndexed accounts)
                (λ u t k.
                  others-IsIndexed accounts t (delete_default_subscription accounts u t) k
                    (delete-Entries ⦃key = hashed accounts⦄ _ u t.default_subscriptions k.defaults))
                c;
          subscribers = after_defaults (HasSubscribers accounts) (λ _ _ k. k) subscribers;
          offers = after_defaults (HasOffers accounts) (λ _ _ k. k) offers;
          publishers = λ d' u k. ground (
            arith,
            k,
            intent_at-delete_publisher d' u,
            get_publisher-delete_publisher d',
            h.publishers d' u,
          );
        }
