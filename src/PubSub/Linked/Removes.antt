-- ===== src/PubSub/Linked/Removes.antt =====
-- What `RemovePublisher` and `RemoveSubscriber` take with them, of a store in which no intent dangles.
use sommelier.Base.{
  ◌≡◌, refl, String, true, not, none, ◌==◌, string_eq, if◌then◌else◌, arith, Option-cases, inl, inr,
}
use sommelier.Base.Exec.{ok}
use sommelier.Base.Table.Prefix.{keep}
use sommelier.PubSub.Types.{Accounts, decode}
use sommelier.PubSub.Store.{
  State, get_publisher, get_publisher_intent, get_subscriber, get_subscriber_intent,
  get_default_subscription, delete_publisher,
}
use sommelier.PubSub.Messages.{
  MsgRemovePublisherRequest, MsgRemoveSubscriberRequest, remove_publisher, remove_subscriber,
}
use sommelier.PubSub.Messages.Effects.{signs, publishes, remove_publisher_ok, remove_subscriber_ok}
use sommelier.PubSub.Linked.{IsLinked}
use sommelier.PubSub.Linked.Publishers.{
  get_publisher-delete_publisher, intent_at-delete_publisher, sub_intent_at-delete_publisher,
  get_default-delete_publisher,
}
use sommelier.PubSub.Linked.Subscribers.{
  sub_intent_at-delete_subscriber, get_subscriber-delete_subscriber,
}

module _ (accounts : Accounts) (s : State accounts) where
  -- A publisher goes from a store, by its signer.
  abbrev pub RemovesPublisher : MsgRemovePublisherRequest → State accounts → Type 0
  RemovesPublisher m t =
      (publishes accounts m.signer m.publisher_domain s ≡ true)
      × ((d : String)
          → get_publisher accounts d t
            ≡ (if d == m.publisher_domain then none else get_publisher accounts d s))
      × ((d u : String)
          → get_publisher_intent accounts u d t
            ≡ (if d == m.publisher_domain then none else get_publisher_intent accounts u d s))
      × ((a : accounts.Address) (u : String)
          → get_subscriber_intent accounts u a t
            ≡ keep (λ i. not (i.publisher_domain == m.publisher_domain))
                (get_subscriber_intent accounts u a s))
      × ((u : String)
          → keep (λ x. x.publisher_domain == m.publisher_domain)
              (get_default_subscription accounts u t)
            ≡ none)

  -- A subscriber goes from a store, by its signer.
  abbrev pub RemovesSubscriber : MsgRemoveSubscriberRequest → State accounts → Type 0
  RemovesSubscriber m t =
      (signs accounts m.signer m.subscriber_address ≡ true)
      × ((a : accounts.Address)
          → get_subscriber accounts a t ≡ (
              if accounts.address_eq.beq a (decode accounts m.subscriber_address)
              then none
              else get_subscriber accounts a s))
      × ((a : accounts.Address) (u : String)
          → get_subscriber_intent accounts u a t ≡ (
              if accounts.address_eq.beq a (decode accounts m.subscriber_address)
              then none
              else get_subscriber_intent accounts u a s))

  module _ (h : IsLinked accounts s) where
    no_default :
        (domain u : String)
        → keep
            (λ x. x.publisher_domain == domain)
            (get_default_subscription accounts u (delete_publisher accounts domain s))
          ≡ none
    no_default domain u =
        elim (Option-cases
          (get_default_subscription accounts u (delete_publisher accounts domain s))) [
            | inl e ↦ rw e refl
            | inr (x, e) ↦
                let other = get_default-delete_publisher accounts domain s h u x e in
                rw e (ground (arith, other))
          ]

    -- If `RemovePublisher` succeeds in a linked store, the signer has the publisher's address. Then the
    -- publisher and its intents are gone, with the subscribers' intents on its domain; other publishers,
    -- their intents and the intents on them stay; and no default subscription of the domain is left.
    pub remove_publisher_removes :
        (m : MsgRemovePublisherRequest)
        → (remove_publisher accounts m s).0 ≡ ok tt
        → RemovesPublisher m (remove_publisher accounts m s).1
    remove_publisher_removes m e =
        let (signed, after) = remove_publisher_ok accounts m s e in
        let domain = m.publisher_domain in
        (
          signed,
          λ d. rw after (get_publisher-delete_publisher accounts domain s h d),
          λ d u. rw after (intent_at-delete_publisher accounts domain s h d u),
          λ a u. rw after (sub_intent_at-delete_publisher accounts domain s h a u),
          λ u. rw after (no_default domain u),
        )

    -- If `RemoveSubscriber` succeeds in a linked store, the signer has the subscriber's address. Then the
    -- subscriber is gone with its intents; other subscribers and their intents stay.
    pub remove_subscriber_removes :
        (m : MsgRemoveSubscriberRequest)
        → (remove_subscriber accounts m s).0 ≡ ok tt
        → RemovesSubscriber m (remove_subscriber accounts m s).1
    remove_subscriber_removes m e =
        let (signed, after) = remove_subscriber_ok accounts m s e in
        let b = decode accounts m.subscriber_address in
        (
          signed,
          λ a. rw after (get_subscriber-delete_subscriber accounts b s h a),
          λ a u. rw after (sub_intent_at-delete_subscriber accounts b s h a u),
        )
