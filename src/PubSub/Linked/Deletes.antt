-- ===== src/PubSub/Linked/Deletes.antt =====
-- What `DeletePublisherIntent` keeps of the promises.
use sommelier.Base.{◌≡◌, refl, sym, ◌∙◌, String, not, ◌&&◌, arith, ◌==◌, string_eq, Option-cases}
use text.Mathlib.TextEquality.{eq_iff}
use sommelier.Base.Table.Prefix.{keep-some}
use sommelier.PubSub.Types.{Accounts, address_of}
use sommelier.PubSub.Store.{
  State, get_publisher, get_subscriber, delete_subscriber_intent, delete_publisher_keys,
  delete_publisher_intent, get_subscriber_intents_by_publisher_domain,
}
use sommelier.PubSub.Removal.{sub_intent_at, IsIndexed}
use sommelier.PubSub.Removal.Loops.{drop_subscriptions-Keeps}
use sommelier.PubSub.Removal.Intents.{
  sub_intent_at-delete_publisher_intent, intent_at-delete_publisher_intent,
  delete_publisher_intent-IsIndexed,
}
use sommelier.PubSub.Linked.{HasSubscribers, HasOffers, HasPublisher, IsLinked}

module _ (accounts : Accounts) (id d : String) (s : State accounts) where
  -- Deletions of keys of intents leave alone what no such deletion changes.
  pub delete_publisher_intent-Keeps :
      (P : State accounts → Type 0)
      → ((u : String) (a : accounts.Address) (d' : String) (t : State accounts)
          → P t
          → P (delete_subscriber_intent accounts u a d' t))
      → P (delete_publisher_keys accounts id d s)
      → P (delete_publisher_intent accounts id d s)
  unfolding delete_publisher_intent
  delete_publisher_intent-Keeps P step h =
      drop_subscriptions-Keeps accounts P
        (λ i t. step i.subscription_id (address_of accounts i) i.publisher_domain t) id
        (get_subscriber_intents_by_publisher_domain accounts d
          (delete_publisher_keys accounts id d s))
        (delete_publisher_keys accounts id d s) h

  pub get_publisher-delete_publisher_intent :
      (d' : String)
      → get_publisher accounts d' (delete_publisher_intent accounts id d s)
        ≡ get_publisher accounts d' s
  get_publisher-delete_publisher_intent d' =
      delete_publisher_intent-Keeps (λ t. get_publisher accounts d' t ≡ get_publisher accounts d' s)
        (λ _ _ _ _ h. h) refl

  pub get_subscriber-delete_publisher_intent :
      (a : accounts.Address)
      → get_subscriber accounts a (delete_publisher_intent accounts id d s)
        ≡ get_subscriber accounts a s
  get_subscriber-delete_publisher_intent a =
      delete_publisher_intent-Keeps (λ t. get_subscriber accounts a t ≡ get_subscriber accounts a s)
        (λ _ _ _ _ h. h) refl

  module _ (c : IsIndexed accounts s) where
    pub delete_publisher_intent-HasSubscribers :
        HasSubscribers accounts s
        → HasSubscribers accounts (delete_publisher_intent accounts id d s)
    delete_publisher_intent-HasSubscribers h a u e = ground (
      arith,
      h a u,
      get_subscriber-delete_publisher_intent a,
      sub_intent_at-delete_publisher_intent accounts id d s c a u,
      Option-cases (sub_intent_at accounts a u s),
    )

    pub delete_publisher_intent-HasOffers :
        HasOffers accounts s → HasOffers accounts (delete_publisher_intent accounts id d s)
    delete_publisher_intent-HasOffers h a u i e =
        let (stored, kept) =
          keep-some (λ k. not (id == u && k.publisher_domain == d)) (sub_intent_at accounts a u s) i
            (sym (sub_intent_at-delete_publisher_intent accounts id d s c a u) ∙ e) in
        let offer = h a u i stored in
        ground (
          arith,
          offer,
          kept,
          intent_at-delete_publisher_intent accounts id d s c i.publisher_domain u,
          eq_iff id u,
          eq_iff u id,
        )

    pub delete_publisher_intent-HasPublisher :
        (d' : String)
        → HasPublisher accounts d' s
        → HasPublisher accounts d' (delete_publisher_intent accounts id d s)
    delete_publisher_intent-HasPublisher d' h u e = ground (
      arith,
      h u,
      get_publisher-delete_publisher_intent d',
      intent_at-delete_publisher_intent accounts id d s c d' u,
    )

  pub delete_publisher_intent-IsLinked :
      IsLinked accounts s → IsLinked accounts (delete_publisher_intent accounts id d s)
  delete_publisher_intent-IsLinked h = record {
    indexed = delete_publisher_intent-IsIndexed accounts id d s h.indexed;
    subscribers = delete_publisher_intent-HasSubscribers h.indexed h.subscribers;
    offers = delete_publisher_intent-HasOffers h.indexed h.offers;
    publishers = λ d'. delete_publisher_intent-HasPublisher h.indexed d' (h.publishers d');
  }
