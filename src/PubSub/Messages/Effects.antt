-- ===== src/PubSub/Messages/Effects.antt =====
-- What a message of x/pubsub does to the store, by how its handler ends.
use sommelier.Base.{
  ◌≡◌, ◌≢◌, String, Bool, true, false, ◌&&◌, none, some, any, arith, ◌==◌, string_eq, Option-cases,
  inl, inr,
}
use text.Mathlib.TextEquality.{eq_iff}
use sommelier.Base.Table
use sommelier.Base.Exec.{ok}
use sommelier.PubSub.Types.{
  Accounts, Subscriber, PublisherIntent, SubscriberIntent, decode, address_of, anyone, validators,
  listed, other_allowed,
}
use sommelier.PubSub.Store.{
  State, address_id, id_address, domain_address_id, get_publisher, get_subscriber,
  get_publisher_intent, get_subscriber_intent, set_subscriber, set_publisher_intent,
  delete_subscriber_intent, delete_publisher_intent, delete_publisher, delete_subscriber,
}
use sommelier.PubSub.Messages.{
  MsgAddPublisherIntentRequest, MsgAddSubscriberIntentRequest, MsgAddSubscriberRequest,
  MsgRemovePublisherIntentRequest, MsgRemoveSubscriberIntentRequest, MsgRemoveSubscriberRequest,
  MsgRemovePublisherRequest, add_publisher_intent, add_subscriber_intent, add_subscriber,
  remove_publisher_intent, remove_subscriber_intent, remove_subscriber, remove_publisher, is_push,
}

module _ (accounts : Accounts) where
  -- Whether a text is the signer's, where the signer is one.
  abbrev pub signs : String → String → Bool
  signs signer owner = elim (accounts.from_bech32 signer) [
    | none ↦ false
    | some a ↦ accounts.text a == owner
  ]

  -- Whether a publisher of a domain is known whose address the signer has.
  abbrev pub publishes : String → String → State accounts → Bool
  publishes signer domain s = elim (get_publisher accounts domain s) [
    | none ↦ false
    | some p ↦ signs signer p.address
  ]

  pub add_publisher_intent_rejects :
      (m : MsgAddPublisherIntentRequest) (s : State accounts)
      → (add_publisher_intent accounts m s).0 ≢ ok tt
      → (add_publisher_intent accounts m s).1 ≡ s
  unfolding add_publisher_intent
  add_publisher_intent_rejects m s n = ground (arith, n)

  -- A publisher's intent is added by its publisher, where the publisher has none of its id.
  pub add_publisher_intent_ok :
      (m : MsgAddPublisherIntentRequest) (s : State accounts)
      → (add_publisher_intent accounts m s).0 ≡ ok tt
      → (i : PublisherIntent) × (m.publisher_intent ≡ some i)
        × (publishes m.signer i.publisher_domain s ≡ true)
        × (get_publisher_intent accounts i.subscription_id i.publisher_domain s ≡ none)
        × ((add_publisher_intent accounts m s).1 ≡ set_publisher_intent accounts i s)
  unfolding add_publisher_intent
  add_publisher_intent_ok m s e = elim (Option-cases m.publisher_intent) [
    | inl q ↦ absurd (ground (arith, e, q))
    | inr (i, q) ↦ (i, q, ground (arith, e, q), ground (arith, e, q), ground (arith, e, q))
  ]

  pub add_subscriber_intent_rejects :
      (m : MsgAddSubscriberIntentRequest) (s : State accounts)
      → (add_subscriber_intent accounts m s).0 ≢ ok tt
      → (add_subscriber_intent accounts m s).1 ≡ s
  unfolding add_subscriber_intent
  add_subscriber_intent_rejects m s n = ground (arith, n)

  -- Whether an offer is open to a signer: an open one to all, one for validators to the accounts that
  -- have a validator, and one with a list to the accounts on the list.
  abbrev pub is_open_to : PublisherIntent → accounts.Address → Bool
  is_open_to o signer = elim o.allowed_subscribers [
    | anyone ↦ true
    | validators ↦ accounts.is_validator signer
    | listed ↦ any (λ allowed. allowed == accounts.text signer) o.allowed_addresses
    | other_allowed _ ↦ true
  ]

  abbrev pub AddsSubscriberIntent :
      MsgAddSubscriberIntentRequest → State accounts → State accounts → Type 0
  AddsSubscriberIntent m s t =
      (i : SubscriberIntent) × (signer : accounts.Address) × (r : Subscriber)
      × (o : PublisherIntent) × (m.subscriber_intent ≡ some i)
      × (accounts.from_bech32 m.signer ≡ some signer)
      × (accounts.text signer ≡ i.subscriber_address)
      × (get_subscriber_intent accounts i.subscription_id (address_of accounts i) s ≡ none)
      × (get_subscriber accounts (address_of accounts i) s ≡ some r)
      × (get_publisher_intent accounts i.subscription_id i.publisher_domain s ≡ some o)
      × ((is_push o.method && r.push_url == "") ≡ false)
      × (is_open_to o signer ≡ true)
      × (t ≡ record s {
        subscriber_intents =
            Table.set ⦃key = address_id accounts⦄ (address_of accounts i, i.subscription_id) i
              s.subscriber_intents;
        subscriber_intents_by_subscription =
            Table.set ⦃key = id_address accounts⦄ (i.subscription_id, address_of accounts i) i
              s.subscriber_intents_by_subscription;
        subscriber_intents_by_domain =
            Table.set ⦃key = domain_address_id accounts⦄
              (i.publisher_domain, (address_of accounts i, i.subscription_id)) i
              s.subscriber_intents_by_domain;
      })

  -- If `AddSubscriberIntent` succeeds, the signer is the intent's subscriber, who is known and had no
  -- intent of the id. The publisher's intent is there and is open to the signer: to a validator's account
  -- where it is for validators, to an account on its list where it has one. A push URL is known where it
  -- pushes. The store has changed by the intent in its three indices, under the subscriber and the id,
  -- the id and the subscriber, and the domain, the subscriber and the id.
  pub add_subscriber_intent_ok :
      (m : MsgAddSubscriberIntentRequest) (s : State accounts)
      → (add_subscriber_intent accounts m s).0 ≡ ok tt
      → AddsSubscriberIntent m s (add_subscriber_intent accounts m s).1
  unfolding add_subscriber_intent
  add_subscriber_intent_ok m s e = elim (Option-cases m.subscriber_intent) [
    | inl q ↦ absurd (ground (arith, e, q))
    | inr (i, q) ↦ elim (Option-cases (accounts.from_bech32 m.signer)) [
      | inl a ↦ absurd (ground (arith, e, q, a))
      | inr (signer, a) ↦ elim (Option-cases (get_subscriber accounts (address_of accounts i) s)) [
        | inl f ↦ absurd (ground (arith, e, q, a, f))
        | inr (r, f) ↦
            elim (Option-cases
              (get_publisher_intent accounts i.subscription_id i.publisher_domain s)) [
                | inl g ↦ absurd (ground (arith, e, q, a, f, g))
                | inr (o, g) ↦ (
                  i,
                  signer,
                  r,
                  o,
                  q,
                  a,
                  (eq_iff (accounts.text signer) i.subscriber_address).0
                      (ground (arith, e, q, a, f, g)),
                  ground (arith, e, q, a, f, g),
                  f,
                  g,
                  ground (arith, e, q, a, f, g),
                  ground (arith, e, q, a, f, g),
                  ground (arith, e, q, a, f, g),
                )
              ]
      ]
    ]
  ]

  pub add_subscriber_rejects :
      (m : MsgAddSubscriberRequest) (s : State accounts)
      → (add_subscriber accounts m s).0 ≢ ok tt
      → (add_subscriber accounts m s).1 ≡ s
  unfolding add_subscriber
  add_subscriber_rejects m s n = ground (arith, n)

  pub add_subscriber_ok :
      (m : MsgAddSubscriberRequest) (s : State accounts)
      → (add_subscriber accounts m s).0 ≡ ok tt
      → (r : Subscriber) × (m.subscriber ≡ some r)
        × (signs m.signer r.address ≡ true)
        × ((add_subscriber accounts m s).1
            ≡ set_subscriber accounts (decode accounts r.address) r s)
  unfolding add_subscriber
  add_subscriber_ok m s e = elim (Option-cases m.subscriber) [
    | inl q ↦ absurd (ground (arith, e, q))
    | inr (r, q) ↦ (r, q, ground (arith, e, q), ground (arith, e, q))
  ]

  pub remove_publisher_intent_rejects :
      (m : MsgRemovePublisherIntentRequest) (s : State accounts)
      → (remove_publisher_intent accounts m s).0 ≢ ok tt
      → (remove_publisher_intent accounts m s).1 ≡ s
  unfolding remove_publisher_intent
  remove_publisher_intent_rejects m s n = ground (arith, n)

  pub remove_publisher_intent_ok :
      (m : MsgRemovePublisherIntentRequest) (s : State accounts)
      → (remove_publisher_intent accounts m s).0 ≡ ok tt
      → (publishes m.signer m.publisher_domain s ≡ true)
        × ((remove_publisher_intent accounts m s).1
            ≡ delete_publisher_intent accounts m.subscription_id m.publisher_domain s)
  unfolding remove_publisher_intent
  remove_publisher_intent_ok m s e = (ground (arith, e), ground (arith, e))

  pub remove_subscriber_intent_rejects :
      (m : MsgRemoveSubscriberIntentRequest) (s : State accounts)
      → (remove_subscriber_intent accounts m s).0 ≢ ok tt
      → (remove_subscriber_intent accounts m s).1 ≡ s
  unfolding remove_subscriber_intent
  remove_subscriber_intent_rejects m s n = ground (arith, n)

  -- Whether a subscriber is known whose address the signer has.
  abbrev pub subscribes : String → accounts.Address → State accounts → Bool
  subscribes signer a s = elim (get_subscriber accounts a s) [
    | none ↦ false
    | some r ↦ signs signer r.address
  ]

  pub remove_subscriber_intent_ok :
      (m : MsgRemoveSubscriberIntentRequest) (s : State accounts)
      → (remove_subscriber_intent accounts m s).0 ≡ ok tt
      → (i : SubscriberIntent) × (get_subscriber_intent accounts m.subscription_id
            (decode accounts m.subscriber_address)
            s
          ≡ some i)
        × (subscribes m.signer (decode accounts m.subscriber_address) s ≡ true)
        × ((remove_subscriber_intent accounts m s).1
            ≡ delete_subscriber_intent accounts m.subscription_id
                (decode accounts m.subscriber_address)
                i.publisher_domain
                s)
  unfolding remove_subscriber_intent
  remove_subscriber_intent_ok m s e =
      elim (Option-cases (
        get_subscriber_intent accounts m.subscription_id (decode accounts m.subscriber_address)
          s)) [
            | inl q ↦ absurd (ground (arith, e, q))
            | inr (i, q) ↦ (i, q, ground (arith, e, q), ground (arith, e, q))
          ]

  pub remove_subscriber_rejects :
      (m : MsgRemoveSubscriberRequest) (s : State accounts)
      → (remove_subscriber accounts m s).0 ≢ ok tt
      → (remove_subscriber accounts m s).1 ≡ s
  unfolding remove_subscriber
  remove_subscriber_rejects m s n = ground (arith, n)

  pub remove_subscriber_ok :
      (m : MsgRemoveSubscriberRequest) (s : State accounts)
      → (remove_subscriber accounts m s).0 ≡ ok tt
      → (signs m.signer m.subscriber_address ≡ true)
        × ((remove_subscriber accounts m s).1
            ≡ delete_subscriber accounts (decode accounts m.subscriber_address) s)
  unfolding remove_subscriber
  remove_subscriber_ok m s e = (ground (arith, e), ground (arith, e))

  pub remove_publisher_rejects :
      (m : MsgRemovePublisherRequest) (s : State accounts)
      → (remove_publisher accounts m s).0 ≢ ok tt
      → (remove_publisher accounts m s).1 ≡ s
  unfolding remove_publisher
  remove_publisher_rejects m s n = ground (arith, n)

  pub remove_publisher_ok :
      (m : MsgRemovePublisherRequest) (s : State accounts)
      → (remove_publisher accounts m s).0 ≡ ok tt
      → (publishes m.signer m.publisher_domain s ≡ true)
        × ((remove_publisher accounts m s).1 ≡ delete_publisher accounts m.publisher_domain s)
  unfolding remove_publisher
  remove_publisher_ok m s e = (ground (arith, e), ground (arith, e))
