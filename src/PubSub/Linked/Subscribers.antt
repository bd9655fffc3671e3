-- ===== src/PubSub/Linked/Subscribers.antt =====
-- What `DeleteSubscriberIntent` and `DeleteSubscriber` take, and that they keep the promises.
use sommelier.Base.{
  ◌≡◌, sym, ap, ◌∙◌, String, true, not, ◌&&◌, ◌||◌, none, some, List, any, arith, ◌==◌, string_eq,
  Bool-cases, Option-cases, inl, inr, if◌then◌else◌,
}
use text.Mathlib.TextEquality.{eq_iff}
use sommelier.Base.Table
use sommelier.Base.Table.{Table, Entries, same, get-delete, get-Entries, delete-Entries}
use sommelier.Base.Table.Prefix.{is_some, any-under_one, any-under_none, any-under-get}
use sommelier.PubSub.Types.{Accounts, SubscriberIntent, hashed, by_address, address_of}
use sommelier.PubSub.Store.{
  State, domain_id, address_id, domain_address_id, get_publisher, get_subscriber,
  delete_subscriber_intent, delete_subscriber, get_subscriber_intents_by_subscriber_address,
}
use sommelier.PubSub.Removal.{
  intent_at, intent_for, sub_intent_at, sub_intent_for, sub_intent_of, IsIndexed,
}
use sommelier.PubSub.Linked.{serves, IsLinked}
use sommelier.PubSub.Linked.Own.{
  lost, lost_of, drop_own-Keeps, sub_intent_at-drop_own, sub_intent_for-drop_own,
  sub_intent_of-drop_own,
}

module _ (accounts : Accounts) (b : accounts.Address) (s : State accounts)
    (h : IsLinked accounts s) where
  abbrev without_key : State accounts
  without_key = record s { subscribers = Table.delete ⦃key = by_address accounts⦄ b s.subscribers }

  abbrev own : List SubscriberIntent
  own = get_subscriber_intents_by_subscriber_address accounts b without_key

  any-own :
      (a : accounts.Address) (u : String)
      → any (lost accounts b a u) own
        ≡ (accounts.address_eq.beq a b && is_some (sub_intent_at accounts a u s))
  any-own a u = elim (Bool-cases (accounts.address_eq.beq a b)) [
    | inl e ↦ rw e (
        any-under_one ⦃key = address_id accounts⦄ (λ k. accounts.address_eq.beq k.0 b)
          (λ i. (address_of accounts i, i.subscription_id)) (lost accounts b a u) (a, u)
          s.subscriber_intents h.indexed.sub_intents
          (λ i. ground (
            arith,
            e,
            accounts.address_eq.beq_iff a b,
            accounts.address_eq.beq_iff b b,
            accounts.address_eq.beq_iff (address_of accounts i) b,
            accounts.address_eq.beq_iff a (address_of accounts i),
          )))
    | inr e ↦ rw e (
        any-under_none ⦃key = address_id accounts⦄ (λ k. accounts.address_eq.beq k.0 b)
          (λ i. (address_of accounts i, i.subscription_id)) (lost accounts b a u)
          s.subscriber_intents h.indexed.sub_intents (λ i. ground (arith, e)))
  ]

  -- No intent of the subscriber is left, and the others stay.
  pub sub_intent_at-delete_subscriber :
      (a : accounts.Address) (u : String)
      → sub_intent_at accounts a u (delete_subscriber accounts b s)
        ≡ (if accounts.address_eq.beq a b then none else sub_intent_at accounts a u s)
  unfolding delete_subscriber
  sub_intent_at-delete_subscriber a u =
      sub_intent_at-drop_own accounts b own a u without_key
      ∙ ground (arith, any-own a u, Option-cases (sub_intent_at accounts a u s))

  -- What is stored under the subscriber for a domain is met by the loop.
  any_met :
      (d u : String) (a : accounts.Address) (i : SubscriberIntent)
      → accounts.address_eq.beq a b ≡ true
      → sub_intent_at accounts a u s ≡ some i
      → (not (i.publisher_domain == d) || any (lost_of accounts b d a u) own) ≡ true
  any_met d u a i e stored = elim (Bool-cases (i.publisher_domain == d)) [
    | inl q ↦
        let at =
          get-Entries ⦃key = address_id accounts⦄
            (λ k i. (address_of accounts i, i.subscription_id) ≡ k) (a, u) i s.subscriber_intents
            h.indexed.sub_intents stored in
        let id : i.subscription_id ≡ u = ap (λ p. p.1) at in
        let met =
          any-under-get ⦃key = address_id accounts⦄ (λ k. accounts.address_eq.beq k.0 b)
            (lost_of accounts b d a u) (a, u) i s.subscriber_intents stored e
            (ground (
              arith,
              e,
              q,
              id,
              eq_iff i.publisher_domain d,
              eq_iff d i.publisher_domain,
              eq_iff u i.subscription_id,
            )) in
        ground (arith, met)
    | inr q ↦ ground (arith, q)
  ]

  sub_intent_of-delete_subscriber :
      (d : String) (a : accounts.Address) (u : String)
      → sub_intent_of accounts d a u (delete_subscriber accounts b s)
        ≡ (if accounts.address_eq.beq a b then none else sub_intent_of accounts d a u s)
  unfolding delete_subscriber
  sub_intent_of-delete_subscriber d a u =
      sub_intent_of-drop_own accounts b own d a u without_key
      ∙ elim (Bool-cases (accounts.address_eq.beq a b)) [
        | inl e ↦ elim (Option-cases (sub_intent_at accounts a u s)) [
          | inl none_at ↦ ground (arith, e, none_at, h.indexed.same_domain d a u)
          | inr (i, stored) ↦
              ground (arith, e, stored, h.indexed.same_domain d a u, any_met d u a i e stored)
        ]
        | inr e ↦
            let missed =
              any-under_none ⦃key = address_id accounts⦄ (λ k. accounts.address_eq.beq k.0 b)
                (λ i. (address_of accounts i, i.subscription_id)) (lost_of accounts b d a u)
                s.subscriber_intents h.indexed.sub_intents (λ i. ground (arith, e)) in
            ground (arith, e, missed)
      ]

  sub_intent_for-delete_subscriber :
      (a : accounts.Address) (u : String)
      → sub_intent_for accounts u a (delete_subscriber accounts b s)
        ≡ sub_intent_at accounts a u (delete_subscriber accounts b s)
  unfolding delete_subscriber
  sub_intent_for-delete_subscriber a u =
      sub_intent_for-drop_own accounts b own a u without_key
      ∙ rw (h.indexed.same_sub_intents a u)
          (sym (sub_intent_at-drop_own accounts b own a u without_key))

  after_own :
      (P : State accounts → Type 0)
      → ((u d : String) (t : State accounts) → P t → P (delete_subscriber_intent accounts u b d t))
      → P without_key
      → P (delete_subscriber accounts b s)
  unfolding delete_subscriber
  after_own P step k = drop_own-Keeps accounts P b step own without_key k

  delete_subscriber-IsIndexed : IsIndexed accounts (delete_subscriber accounts b s)
  delete_subscriber-IsIndexed = record {
    intents =
        after_own
          (λ t.
            Entries ⦃key = domain_id accounts⦄ (λ k i. (i.publisher_domain, i.subscription_id) ≡ k)
              t.publisher_intents)
          (λ _ _ _ k. k) h.indexed.intents;
    sub_intents =
        after_own
          (λ t.
            Entries ⦃key = address_id accounts⦄
              (λ k i. (address_of accounts i, i.subscription_id) ≡ k) t.subscriber_intents)
          (λ u d t k. delete-Entries ⦃key = address_id accounts⦄ _ (b, u) t.subscriber_intents k)
          h.indexed.sub_intents;
    sub_intents_of =
        after_own
          (λ t.
            Entries ⦃key = domain_address_id accounts⦄
              (λ k i. (i.publisher_domain, (address_of accounts i, i.subscription_id)) ≡ k)
              t.subscriber_intents_by_domain)
          (λ u d t k.
            delete-Entries ⦃key = domain_address_id accounts⦄ _ (d, (b, u))
              t.subscriber_intents_by_domain k)
          h.indexed.sub_intents_of;
    defaults =
        after_own
          (λ t.
            Entries ⦃key = hashed accounts⦄ (λ u x. x.subscription_id ≡ u) t.default_subscriptions)
          (λ _ _ _ k. k) h.indexed.defaults;
    same_intents = λ d u.
        after_own (λ t. intent_for accounts u d t ≡ intent_at accounts d u t) (λ _ _ _ k. k)
          (h.indexed.same_intents d u);
    same_sub_intents = sub_intent_for-delete_subscriber;
    same_domain = λ d a u.
        rw
          (
            sub_intent_of-delete_subscriber d a u,
            sub_intent_at-delete_subscriber a u,
            h.indexed.same_domain d a u,
          )
          (ground arith);
  }

  pub get_subscriber-delete_subscriber :
      (a : accounts.Address)
      → get_subscriber accounts a (delete_subscriber accounts b s)
        ≡ (if accounts.address_eq.beq a b then none else get_subscriber accounts a s)
  get_subscriber-delete_subscriber a =
      after_own
        (λ t.
          get_subscriber accounts a t
          ≡ (if accounts.address_eq.beq a b then none else get_subscriber accounts a s))
        (λ _ _ _ k. k) (get-delete ⦃key = by_address accounts⦄ b a s.subscribers)

  pub delete_subscriber-IsLinked : IsLinked accounts (delete_subscriber accounts b s)
  delete_subscriber-IsLinked = record {
    indexed = delete_subscriber-IsIndexed;
    subscribers = λ a u k. ground (
      arith,
      k,
      h.subscribers a u,
      sub_intent_at-delete_subscriber a u,
      get_subscriber-delete_subscriber a,
    );
    offers = λ a u i k.
        let stored : sub_intent_at accounts a u s ≡ some i =
          ground (arith, k, sub_intent_at-delete_subscriber a u) in
        after_own (λ t. serves (intent_at accounts i.publisher_domain u t) i ≡ true) (λ _ _ _ q. q)
          (h.offers a u i stored);
    publishers = λ d u.
        after_own
          (λ t.
            is_some (intent_at accounts d u t) ≡ true → is_some (get_publisher accounts d t) ≡ true)
          (λ _ _ _ q. q) (h.publishers d u);
  }
