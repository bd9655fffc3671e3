-- ===== src/PubSub/Linked/Loops.antt =====
-- The loops of `DeletePublisher`, in terms of lookups.
use sommelier.Base.{
  ◌≡◌, refl, sym, ◌∙◌, String, not, ◌&&◌, none, List, [], ◌∷◌, any, arith, ◌==◌, string_eq,
  Bool-cases, inl, inr, if◌then◌else◌, if_rule,
}
use sommelier.Base.Table.{Entries, same, get-delete}
use sommelier.Base.Table.Prefix.{keep, keep-keep, keep_ext, keep_all}
use sommelier.PubSub.Types.{Accounts, PublisherIntent, DefaultSubscription, hashed}
use sommelier.PubSub.Store.{
  State, domain_id, get_default_subscription, delete_default_subscription, drop_intents,
  drop_defaults, delete_publisher_intent,
}
use sommelier.PubSub.Removal.{intent_at, sub_intent_at, IsIndexed}
use sommelier.PubSub.Removal.Intents.{
  sub_intent_at-delete_publisher_intent, intent_at-delete_publisher_intent,
  delete_publisher_intent-IsIndexed,
}

module _ (accounts : Accounts) where
  -- The publishers, subscribers and default subscriptions are no part of the indices.
  pub others-IsIndexed :
      (s t : State accounts)
      → IsIndexed accounts s
      → Entries ⦃key = hashed accounts⦄ (λ u x. x.subscription_id ≡ u) t.default_subscriptions
      → IsIndexed accounts (record s {
        publishers = t.publishers;
        subscribers = t.subscribers;
        default_subscriptions = t.default_subscriptions;
      })
  others-IsIndexed s t c h = record {
    defaults = h;
    intents = c.intents;
    sub_intents = c.sub_intents;
    sub_intents_of = c.sub_intents_of;
    same_intents = c.same_intents;
    same_sub_intents = c.same_sub_intents;
    same_domain = c.same_domain;
  }

  pub drop_intents-Keeps :
      (P : State accounts → Type 0)
      → ((u d : String) (t : State accounts) → P t → P (delete_publisher_intent accounts u d t))
      → (l : List PublisherIntent) (s : State accounts) → P s
      → P (drop_intents accounts l s)
  unfolding drop_intents
  drop_intents-Keeps P step [] s h = h
  drop_intents-Keeps P step (i ∷ l) s h =
      drop_intents-Keeps P step l _ (step i.subscription_id i.publisher_domain s h)

  pub drop_defaults-Keeps :
      (P : State accounts → Type 0)
      → ((u : String) (t : State accounts) → P t → P (delete_default_subscription accounts u t))
      → (d : String) (l : List DefaultSubscription) (s : State accounts) → P s
      → P (drop_defaults accounts d l s)
  unfolding drop_defaults
  drop_defaults-Keeps P step d [] s h = h
  drop_defaults-Keeps P step d (x ∷ l) s h = drop_defaults-Keeps P step d l _ (
      if_rule P (x.publisher_domain == d) (delete_default_subscription accounts x.subscription_id s)
        s (step x.subscription_id s h) h)

  pub intent_at-drop_intents :
      (l : List PublisherIntent) (s : State accounts) (d u : String)
      → IsIndexed accounts s
      → intent_at accounts d u (drop_intents accounts l s) ≡ (
          if any
            (λ i. same ⦃key = domain_id accounts⦄ (d, u) (i.publisher_domain, i.subscription_id))
            l
          then none
          else intent_at accounts d u s)
  unfolding drop_intents
  intent_at-drop_intents [] s d u c = refl
  intent_at-drop_intents (i ∷ l) s d u c = ground (
    arith,
    intent_at-drop_intents l
        (delete_publisher_intent accounts i.subscription_id i.publisher_domain s) d u
        (delete_publisher_intent-IsIndexed accounts i.subscription_id i.publisher_domain s c),
    intent_at-delete_publisher_intent accounts i.subscription_id i.publisher_domain s c d u,
  )

  pub sub_intent_at-drop_intents :
      (l : List PublisherIntent) (s : State accounts) (a : accounts.Address) (u : String)
      → IsIndexed accounts s
      → sub_intent_at accounts a u (drop_intents accounts l s)
        ≡ keep
            (λ k.
              not (any (λ i. i.subscription_id == u && k.publisher_domain == i.publisher_domain) l))
            (sub_intent_at accounts a u s)
  unfolding drop_intents
  sub_intent_at-drop_intents [] s a u c = sym (keep_all (sub_intent_at accounts a u s))
  sub_intent_at-drop_intents (i ∷ l) s a u c =
      sub_intent_at-drop_intents l
        (delete_publisher_intent accounts i.subscription_id i.publisher_domain s) a u
        (delete_publisher_intent-IsIndexed accounts i.subscription_id i.publisher_domain s c)
      ∙ rw
          (sub_intent_at-delete_publisher_intent accounts i.subscription_id i.publisher_domain s c a
            u)
          (keep-keep
            (λ k.
              not (any (λ j. j.subscription_id == u && k.publisher_domain == j.publisher_domain) l))
            (λ k. not (i.subscription_id == u && k.publisher_domain == i.publisher_domain))
            (sub_intent_at accounts a u s))
      ∙ keep_ext
          (λ k.
            not (i.subscription_id == u && k.publisher_domain == i.publisher_domain)
            && not
                (any (λ j. j.subscription_id == u && k.publisher_domain == j.publisher_domain) l))
          (λ k.
            not (
              any (λ j. j.subscription_id == u && k.publisher_domain == j.publisher_domain)
                (i ∷ l)))
          (sub_intent_at accounts a u s) (λ k. ground arith)

  -- A default subscription that is left was there, and is not one that the loop has met and deletes.
  pub get_default-drop_defaults :
      (d : String) (l : List DefaultSubscription) (s : State accounts) (u : String)
      → get_default_subscription accounts u (drop_defaults accounts d l s) ≡ (
          if any (λ x. x.publisher_domain == d && u == x.subscription_id) l
          then none
          else get_default_subscription accounts u s)
  unfolding drop_defaults
  get_default-drop_defaults d [] s u = refl
  get_default-drop_defaults d (x ∷ l) s u = elim (Bool-cases (x.publisher_domain == d)) [
    | inl e ↦ ground (
      arith,
      e,
      get_default-drop_defaults d l (delete_default_subscription accounts x.subscription_id s) u,
      get-delete ⦃key = hashed accounts⦄ x.subscription_id u s.default_subscriptions,
    )
    | inr e ↦ ground (arith, e, get_default-drop_defaults d l s u)
  ]
