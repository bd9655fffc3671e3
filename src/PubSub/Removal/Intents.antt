-- ===== src/PubSub/Removal/Intents.antt =====
-- `DeletePublisherIntent`, in terms of lookups.
use sommelier.Base.{
  ◌≡◌, refl, sym, ◌∙◌, String, true, not, ◌&&◌, none, List, any, arith, ◌==◌, string_eq, Bool-cases,
  inl, inr, if◌then◌else◌,
}
use text.Mathlib.TextEquality.{eq_iff}
use sommelier.Base.Table.{Entries, get-delete, delete-Entries}
use sommelier.Base.Table.Prefix.{
  is_some, keep, under, any-under_one, any-under_none, drop_kept, keep_unless,
}
use sommelier.PubSub.Types.{Accounts, SubscriberIntent, hashed, address_of}
use sommelier.PubSub.Store.{
  State, domain_id, address_id, domain_address_id, delete_publisher_keys, delete_publisher_intent,
}
use sommelier.PubSub.Removal.{
  intent_at, intent_for, sub_intent_at, sub_intent_for, sub_intent_of, IsIndexed,
}
use sommelier.PubSub.Removal.Loops.{
  hit, hit_of, sub_intent_at-drop_subscriptions, sub_intent_for-drop_subscriptions,
  sub_intent_of-drop_subscriptions, drop_subscriptions-Keeps,
}

module _ (accounts : Accounts) (id d : String) (s : State accounts) (c : IsIndexed accounts s) where
  abbrev found : List SubscriberIntent
  found = under (λ k. k.0 == d) s.subscriber_intents_by_domain

  any-hit :
      (a : accounts.Address) (u : String)
      → any (hit accounts id a u) found ≡ (id == u && is_some (sub_intent_of accounts d a u s))
  any-hit a u = elim (Bool-cases (id == u)) [
    | inl e ↦ rw e (
        any-under_one ⦃key = domain_address_id accounts⦄ (λ k. k.0 == d)
          (λ i. (i.publisher_domain, (address_of accounts i, i.subscription_id)))
          (hit accounts id a u) (d, (a, u)) s.subscriber_intents_by_domain c.sub_intents_of
          (λ i. ground (
            arith,
            e,
            eq_iff id u,
            eq_iff id i.subscription_id,
            eq_iff u i.subscription_id,
            eq_iff d i.publisher_domain,
            eq_iff i.publisher_domain d,
          )))
    | inr e ↦ rw e (
        any-under_none ⦃key = domain_address_id accounts⦄ (λ k. k.0 == d)
          (λ i. (i.publisher_domain, (address_of accounts i, i.subscription_id)))
          (hit accounts id a u) s.subscriber_intents_by_domain c.sub_intents_of
          (λ i.
            ground
              (arith, e, eq_iff id u, eq_iff id i.subscription_id, eq_iff u i.subscription_id)))
  ]

  any-hit_of :
      (d' : String) (a : accounts.Address) (u : String)
      → any (hit_of accounts id d' a u) found
        ≡ (d == d' && (id == u && is_some (sub_intent_of accounts d a u s)))
  any-hit_of d' a u = elim (Bool-cases (d == d' && id == u)) [
    | inl e ↦
        let same_d : (d == d') ≡ true = ground (arith, e) in
        let same_u : (id == u) ≡ true = ground (arith, e) in
        rw (same_d, same_u)
          (any-under_one ⦃key = domain_address_id accounts⦄ (λ k. k.0 == d)
            (λ i. (i.publisher_domain, (address_of accounts i, i.subscription_id)))
            (hit_of accounts id d' a u) (d, (a, u)) s.subscriber_intents_by_domain c.sub_intents_of
            (λ i. ground (
              arith,
              e,
              eq_iff d d',
              eq_iff id u,
              eq_iff id i.subscription_id,
              eq_iff u i.subscription_id,
              eq_iff d i.publisher_domain,
              eq_iff d' i.publisher_domain,
              eq_iff i.publisher_domain d,
            )))
    | inr e ↦
        any-under_none ⦃key = domain_address_id accounts⦄ (λ k. k.0 == d)
          (λ i. (i.publisher_domain, (address_of accounts i, i.subscription_id)))
          (hit_of accounts id d' a u) s.subscriber_intents_by_domain c.sub_intents_of
          (λ i. ground (
            arith,
            e,
            eq_iff d d',
            eq_iff id u,
            eq_iff id i.subscription_id,
            eq_iff u i.subscription_id,
            eq_iff d i.publisher_domain,
            eq_iff d' i.publisher_domain,
            eq_iff i.publisher_domain d,
          ))
        ∙ ground (arith, e)
  ]

  pub sub_intent_at-delete_publisher_intent :
      (a : accounts.Address) (u : String)
      → sub_intent_at accounts a u (delete_publisher_intent accounts id d s)
        ≡ keep (λ i. not (id == u && i.publisher_domain == d)) (sub_intent_at accounts a u s)
  unfolding delete_publisher_intent
  sub_intent_at-delete_publisher_intent a u =
      sub_intent_at-drop_subscriptions accounts id found a u (delete_publisher_keys accounts id d s)
      ∙ rw (any-hit a u) (
          rw (c.same_domain d a u)
            (drop_kept (id == u) (λ i. i.publisher_domain == d) (sub_intent_at accounts a u s)))

  pub sub_intent_of-delete_publisher_intent :
      (d' : String) (a : accounts.Address) (u : String)
      → sub_intent_of accounts d' a u (delete_publisher_intent accounts id d s)
        ≡ (if d == d' && id == u then none else sub_intent_of accounts d' a u s)
  unfolding delete_publisher_intent
  sub_intent_of-delete_publisher_intent d' a u =
      sub_intent_of-drop_subscriptions accounts id found d' a u
        (delete_publisher_keys accounts id d s)
      ∙ rw (any-hit_of d' a u) (ground (arith, eq_iff d d'))

  pub sub_intent_for-delete_publisher_intent :
      (a : accounts.Address) (u : String)
      → sub_intent_for accounts u a (delete_publisher_intent accounts id d s)
        ≡ sub_intent_at accounts a u (delete_publisher_intent accounts id d s)
  unfolding delete_publisher_intent
  sub_intent_for-delete_publisher_intent a u =
      sub_intent_for-drop_subscriptions accounts id found a u
        (delete_publisher_keys accounts id d s)
      ∙ rw (c.same_sub_intents a u) (
          sym (
            sub_intent_at-drop_subscriptions accounts id found a u
              (delete_publisher_keys accounts id d s)))

  -- The loop leaves the other tables alone.
  pub intent_at-delete_publisher_intent :
      (d' u : String)
      → intent_at accounts d' u (delete_publisher_intent accounts id d s)
        ≡ (if d' == d && u == id then none else intent_at accounts d' u s)
  unfolding delete_publisher_intent
  intent_at-delete_publisher_intent d' u =
      drop_subscriptions-Keeps accounts
        (λ t.
          intent_at accounts d' u t
          ≡ intent_at accounts d' u (delete_publisher_keys accounts id d s))
        (λ _ _ h. h) id found (delete_publisher_keys accounts id d s) refl
      ∙ get-delete ⦃key = domain_id accounts⦄ (d, id) (d', u) s.publisher_intents

  pub intent_for-delete_publisher_intent :
      (d' u : String)
      → intent_for accounts u d' (delete_publisher_intent accounts id d s)
        ≡ (if d' == d && u == id then none else intent_for accounts u d' s)
  unfolding delete_publisher_intent
  intent_for-delete_publisher_intent d' u =
      drop_subscriptions-Keeps accounts
        (λ t.
          intent_for accounts u d' t
          ≡ intent_for accounts u d' (delete_publisher_keys accounts id d s))
        (λ _ _ h. h) id found (delete_publisher_keys accounts id d s) refl
      ∙ get-delete ⦃key = domain_id accounts⦄ (id, d) (u, d') s.publisher_intents_by_subscription
      ∙ ground arith

  pub delete_publisher_intent-IsIndexed :
      IsIndexed accounts (delete_publisher_intent accounts id d s)
  unfolding delete_publisher_intent
  delete_publisher_intent-IsIndexed = record {
    intents =
        drop_subscriptions-Keeps accounts
          (λ t.
            Entries ⦃key = domain_id accounts⦄ (λ k i. (i.publisher_domain, i.subscription_id) ≡ k)
              t.publisher_intents)
          (λ _ _ h. h) id found (delete_publisher_keys accounts id d s)
          (delete-Entries ⦃key = domain_id accounts⦄ _ (d, id) s.publisher_intents c.intents);
    sub_intents =
        drop_subscriptions-Keeps accounts
          (λ t.
            Entries ⦃key = address_id accounts⦄
              (λ k i. (address_of accounts i, i.subscription_id) ≡ k) t.subscriber_intents)
          (λ _ t h. delete-Entries ⦃key = address_id accounts⦄ _ _ t.subscriber_intents h) id found
          (delete_publisher_keys accounts id d s) c.sub_intents;
    sub_intents_of =
        drop_subscriptions-Keeps accounts
          (λ t.
            Entries ⦃key = domain_address_id accounts⦄
              (λ k i. (i.publisher_domain, (address_of accounts i, i.subscription_id)) ≡ k)
              t.subscriber_intents_by_domain)
          (λ _ t h.
            delete-Entries ⦃key = domain_address_id accounts⦄ _ _ t.subscriber_intents_by_domain h)
          id found (delete_publisher_keys accounts id d s) c.sub_intents_of;
    defaults =
        drop_subscriptions-Keeps accounts
          (λ t.
            Entries ⦃key = hashed accounts⦄ (λ u x. x.subscription_id ≡ u) t.default_subscriptions)
          (λ _ _ h. h) id found (delete_publisher_keys accounts id d s) c.defaults;
    same_intents = λ d' u.
        rw
          (
            intent_for-delete_publisher_intent d' u,
            intent_at-delete_publisher_intent d' u,
            c.same_intents d' u,
          )
          refl;
    same_sub_intents = λ a u. sub_intent_for-delete_publisher_intent a u;
    same_domain = λ d' a u.
        rw
          (
            sub_intent_of-delete_publisher_intent d' a u,
            sub_intent_at-delete_publisher_intent a u,
            c.same_domain d' a u,
          )
          (keep_unless (d == d' && id == u) (λ i. i.publisher_domain == d')
            (λ i. not (id == u && i.publisher_domain == d)) (sub_intent_at accounts a u s)
            (λ i.
              ground
                (arith, eq_iff d d', eq_iff i.publisher_domain d', eq_iff i.publisher_domain d)));
  }
