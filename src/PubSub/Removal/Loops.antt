-- ===== src/PubSub/Removal/Loops.antt =====
-- The loop of `DeletePublisherIntent`, in terms of lookups.
use sommelier.Base.{
  ◌≡◌, refl, String, Bool, ◌&&◌, none, List, [], ◌∷◌, any, arith, ◌==◌, string_eq, Bool-cases, inl,
  inr, if◌then◌else◌, if_rule,
}
use sommelier.Base.Table.{same, get-delete}
use sommelier.PubSub.Types.{Accounts, SubscriberIntent, address_of}
use sommelier.PubSub.Store.{
  State, address_id, id_address, domain_address_id, delete_subscriber_intent, drop_subscriptions,
}
use sommelier.PubSub.Removal.{sub_intent_at, sub_intent_for, sub_intent_of}

module _ (accounts : Accounts) where
  -- An intent that the loop deletes, and that is the one of an address and an id.
  abbrev pub hit : String → accounts.Address → String → SubscriberIntent → Bool
  hit id a u i =
      id == i.subscription_id
      && same ⦃key = address_id accounts⦄ (a, u) (address_of accounts i, i.subscription_id)

  abbrev pub hit_of : String → String → accounts.Address → String → SubscriberIntent → Bool
  hit_of id d a u i = d == i.publisher_domain && hit id a u i

  pub sub_intent_at-drop_subscriptions :
      (id : String) (l : List SubscriberIntent) (a : accounts.Address) (u : String)
      (s : State accounts)
      → sub_intent_at accounts a u (drop_subscriptions accounts id l s)
        ≡ (if any (hit id a u) l then none else sub_intent_at accounts a u s)
  unfolding drop_subscriptions
  sub_intent_at-drop_subscriptions id [] a u s = refl
  sub_intent_at-drop_subscriptions id (i ∷ l) a u s = elim (Bool-cases (id == i.subscription_id)) [
    | inl e ↦
        let s' =
          delete_subscriber_intent accounts i.subscription_id (address_of accounts i)
            i.publisher_domain s in
        ground (
          arith,
          e,
          sub_intent_at-drop_subscriptions id l a u s',
          get-delete ⦃key = address_id accounts⦄ (address_of accounts i, i.subscription_id) (a, u)
              s.subscriber_intents,
        )
    | inr e ↦ ground (arith, e, sub_intent_at-drop_subscriptions id l a u s)
  ]

  pub sub_intent_for-drop_subscriptions :
      (id : String) (l : List SubscriberIntent) (a : accounts.Address) (u : String)
      (s : State accounts)
      → sub_intent_for accounts u a (drop_subscriptions accounts id l s)
        ≡ (if any (hit id a u) l then none else sub_intent_for accounts u a s)
  unfolding drop_subscriptions
  sub_intent_for-drop_subscriptions id [] a u s = refl
  sub_intent_for-drop_subscriptions id (i ∷ l) a u s = elim (Bool-cases (id == i.subscription_id)) [
    | inl e ↦
        let s' =
          delete_subscriber_intent accounts i.subscription_id (address_of accounts i)
            i.publisher_domain s in
        ground (
          arith,
          e,
          sub_intent_for-drop_subscriptions id l a u s',
          get-delete ⦃key = id_address accounts⦄ (i.subscription_id, address_of accounts i) (u, a)
              s.subscriber_intents_by_subscription,
        )
    | inr e ↦ ground (arith, e, sub_intent_for-drop_subscriptions id l a u s)
  ]

  pub sub_intent_of-drop_subscriptions :
      (id : String) (l : List SubscriberIntent) (d : String) (a : accounts.Address) (u : String)
      (s : State accounts)
      → sub_intent_of accounts d a u (drop_subscriptions accounts id l s)
        ≡ (if any (hit_of id d a u) l then none else sub_intent_of accounts d a u s)
  unfolding drop_subscriptions
  sub_intent_of-drop_subscriptions id [] d a u s = refl
  sub_intent_of-drop_subscriptions id (i ∷ l) d a u s =
      elim (Bool-cases (id == i.subscription_id)) [
        | inl e ↦
            let s' =
              delete_subscriber_intent accounts i.subscription_id (address_of accounts i)
                i.publisher_domain s in
            ground (
              arith,
              e,
              sub_intent_of-drop_subscriptions id l d a u s',
              get-delete ⦃key = domain_address_id accounts⦄
                  (i.publisher_domain, (address_of accounts i, i.subscription_id)) (d, (a, u))
                  s.subscriber_intents_by_domain,
            )
        | inr e ↦ ground (arith, e, sub_intent_of-drop_subscriptions id l d a u s)
      ]

  -- What each deletion keeps, the loop keeps.
  pub drop_subscriptions-Keeps :
      (P : State accounts → Type 0)
      → ((i : SubscriberIntent) (s : State accounts)
          → P s
          → P (
              delete_subscriber_intent accounts i.subscription_id
                (address_of accounts i)
                i.publisher_domain
                s))
      → (id : String) (l : List SubscriberIntent) (s : State accounts) → P s
      → P (drop_subscriptions accounts id l s)
  unfolding drop_subscriptions
  drop_subscriptions-Keeps P step id [] s h = h
  drop_subscriptions-Keeps P step id (i ∷ l) s h = drop_subscriptions-Keeps P step id l _ (
      if_rule P (id == i.subscription_id)
        (delete_subscriber_intent accounts i.subscription_id (address_of accounts i)
          i.publisher_domain s)
        s (step i s h) h)
