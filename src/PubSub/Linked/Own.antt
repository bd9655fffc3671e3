-- ===== src/PubSub/Linked/Own.antt =====
-- The loop of `DeleteSubscriber`, in terms of lookups.
use sommelier.Base.{
  ◌≡◌, refl, String, Bool, ◌&&◌, none, List, [], ◌∷◌, any, arith, ◌==◌, string_eq, if◌then◌else◌,
}
use sommelier.Base.Table.{same, get-delete}
use sommelier.PubSub.Types.{Accounts, SubscriberIntent}
use sommelier.PubSub.Store.{
  State, address_id, id_address, domain_address_id, delete_subscriber_intent, drop_own,
}
use sommelier.PubSub.Removal.{sub_intent_at, sub_intent_for, sub_intent_of}

module _ (accounts : Accounts) where
  -- An intent of the subscriber that is lost, by its id, and by its publisher and id.
  abbrev pub lost : accounts.Address → accounts.Address → String → SubscriberIntent → Bool
  lost b a u i = same ⦃key = address_id accounts⦄ (a, u) (b, i.subscription_id)

  abbrev pub lost_of :
      accounts.Address → String → accounts.Address → String → SubscriberIntent → Bool
  lost_of b d a u i = d == i.publisher_domain && lost b a u i

  pub drop_own-Keeps :
      (P : State accounts → Type 0) (b : accounts.Address)
      → ((u d : String) (t : State accounts) → P t → P (delete_subscriber_intent accounts u b d t))
      → (l : List SubscriberIntent) (s : State accounts) → P s
      → P (drop_own accounts b l s)
  unfolding drop_own
  drop_own-Keeps P b step [] s h = h
  drop_own-Keeps P b step (i ∷ l) s h =
      drop_own-Keeps P b step l _ (step i.subscription_id i.publisher_domain s h)

  pub sub_intent_at-drop_own :
      (b : accounts.Address) (l : List SubscriberIntent) (a : accounts.Address) (u : String)
      (s : State accounts)
      → sub_intent_at accounts a u (drop_own accounts b l s)
        ≡ (if any (lost b a u) l then none else sub_intent_at accounts a u s)
  unfolding drop_own
  sub_intent_at-drop_own b [] a u s = refl
  sub_intent_at-drop_own b (i ∷ l) a u s = ground (
    arith,
    sub_intent_at-drop_own b l a u
        (delete_subscriber_intent accounts i.subscription_id b i.publisher_domain s),
    get-delete ⦃key = address_id accounts⦄ (b, i.subscription_id) (a, u) s.subscriber_intents,
  )

  pub sub_intent_for-drop_own :
      (b : accounts.Address) (l : List SubscriberIntent) (a : accounts.Address) (u : String)
      (s : State accounts)
      → sub_intent_for accounts u a (drop_own accounts b l s)
        ≡ (if any (lost b a u) l then none else sub_intent_for accounts u a s)
  unfolding drop_own
  sub_intent_for-drop_own b [] a u s = refl
  sub_intent_for-drop_own b (i ∷ l) a u s = ground (
    arith,
    sub_intent_for-drop_own b l a u
        (delete_subscriber_intent accounts i.subscription_id b i.publisher_domain s),
    get-delete ⦃key = id_address accounts⦄ (i.subscription_id, b) (u, a)
        s.subscriber_intents_by_subscription,
  )

  pub sub_intent_of-drop_own :
      (b : accounts.Address) (l : List SubscriberIntent) (d : String) (a : accounts.Address)
      (u : String) (s : State accounts)
      → sub_intent_of accounts d a u (drop_own accounts b l s)
        ≡ (if any (lost_of b d a u) l then none else sub_intent_of accounts d a u s)
  unfolding drop_own
  sub_intent_of-drop_own b [] d a u s = refl
  sub_intent_of-drop_own b (i ∷ l) d a u s = ground (
    arith,
    sub_intent_of-drop_own b l d a u
        (delete_subscriber_intent accounts i.subscription_id b i.publisher_domain s),
    get-delete ⦃key = domain_address_id accounts⦄ (i.publisher_domain, (b, i.subscription_id))
        (d, (a, u)) s.subscriber_intents_by_domain,
  )
