-- ===== src/PubSub/Genesis/Linking.antt =====
-- What a genesis of x/pubsub has to promise for the store that it is loaded into to be linked.
use sommelier.Base.{
  ◌≡◌, refl, String, true, ◌&&◌, some, any, All, All-weaken, arith, ◌==◌, string_eq,
}
use sommelier.Base.Exec.{ok, modify}
use sommelier.Base.Table
use sommelier.Base.Table.{get-set}
use sommelier.Base.Table.Prefix.{is_some}
use sommelier.PubSub.Types.{Accounts, Publisher, Subscriber, address_of, decode, Error}
use sommelier.PubSub.Store.{
  State, get_publisher, get_subscriber, set_publisher, set_subscriber, set_publisher_intent,
  set_subscriber_intent, set_default_subscription,
}
use sommelier.PubSub.Linked.{serves, IsLinked}
use sommelier.PubSub.Linked.Sets.{
  set_publisher-IsLinked, set_subscriber-IsLinked, set_default_subscription-IsLinked,
}
use sommelier.PubSub.Genesis.{GenesisState, init_genesis}
use sommelier.PubSub.Genesis.Signing.{
  All-of, bare, bare-IsLinked, put_publishers, put_subscribers, get_publisher-put,
  get_subscriber-put, sign_up, intend, sign_up_lem, intend_lem,
}
use sommelier.PubSub.Genesis.Loops.{
  put, put-Keeps, for_each-put, Apart, same_offer, same_intent, put_offers, put_intents, IsFresh,
  IsNew, put_offers-IsLinked, put_offers_serve, put_intents-IsLinked,
}

module _ (accounts : Accounts) where
  -- Addresses are ones that decode; the offers, and the subscribers' intents, have keys of their own; an
  -- offer has its publisher, and a subscriber's intent its subscriber and an offer that serves it.
  pub record Links (gs : GenesisState) : Type 0 where
    pub addresses : All (λ r. is_some (accounts.from_bech32 r.address) ≡ true) gs.subscribers
    pub intent_addresses :
        All (λ i. is_some (accounts.from_bech32 i.subscriber_address) ≡ true) gs.subscriber_intents
    pub publishers :
        All
          (λ i. any (λ p. i.publisher_domain == p.domain) gs.publishers ≡ true)
          gs.publisher_intents
    pub offers_apart : Apart same_offer gs.publisher_intents
    pub subscribers :
        All
          (λ i.
            any
              (λ r. accounts.address_eq.beq (address_of accounts i) (decode accounts r.address))
              gs.subscribers
            ≡ true)
          gs.subscriber_intents
    pub served :
        All
          (λ i.
            any
              (λ p.
                p.publisher_domain == i.publisher_domain
                && p.subscription_id == i.subscription_id
                && serves (some p) i)
              gs.publisher_intents
            ≡ true)
          gs.subscriber_intents
    pub intents_apart : Apart (same_intent accounts) gs.subscriber_intents

  -- The store after each of the loops.
  abbrev signed_up : GenesisState → State accounts
  signed_up gs =
      put_subscribers accounts gs.subscribers
        (put_publishers accounts gs.publishers (bare accounts))

  abbrev offered : GenesisState → State accounts
  offered gs = put_offers accounts gs.publisher_intents (signed_up gs)

  abbrev pub loaded : GenesisState → State accounts
  loaded gs =
      put (set_default_subscription accounts) gs.default_subscriptions
        (put_intents accounts gs.subscriber_intents (offered gs))

  signed_up-IsLinked : (gs : GenesisState) → IsLinked accounts (signed_up gs)
  signed_up-IsLinked gs =
      put-Keeps (λ r. set_subscriber accounts (decode accounts r.address) r) (IsLinked accounts)
        (λ r t h. set_subscriber-IsLinked accounts t h (decode accounts r.address) r) gs.subscribers
        (put_publishers accounts gs.publishers (bare accounts))
        (put-Keeps (set_publisher accounts) (IsLinked accounts)
          (λ p t h. set_publisher-IsLinked accounts t h p) gs.publishers (bare accounts)
          (bare-IsLinked accounts))

  -- Nothing of the intents is there before their loops.
  signed_up-bare :
      (P : State accounts → Type 0)
      → ((p : Publisher) (t : State accounts) → P t → P (set_publisher accounts p t))
      → ((a : accounts.Address) (r : Subscriber) (t : State accounts)
          → P t
          → P (set_subscriber accounts a r t))
      → (gs : GenesisState) → P (bare accounts)
      → P (signed_up gs)
  signed_up-bare P publishers subscribers gs h =
      put-Keeps (λ r. set_subscriber accounts (decode accounts r.address) r) P
        (λ r t. subscribers (decode accounts r.address) r t) gs.subscribers
        (put_publishers accounts gs.publishers (bare accounts))
        (put-Keeps (set_publisher accounts) P publishers gs.publishers (bare accounts) h)

  known_publisher :
      (gs : GenesisState) (d : String)
      → any (λ p. d == p.domain) gs.publishers ≡ true
      → is_some (get_publisher accounts d (signed_up gs)) ≡ true
  known_publisher gs d e =
      put-Keeps (λ r. set_subscriber accounts (decode accounts r.address) r)
        (λ t. is_some (get_publisher accounts d t) ≡ true) (λ r t h. h) gs.subscribers
        (put_publishers accounts gs.publishers (bare accounts))
        (ground (arith, e, get_publisher-put accounts d gs.publishers (bare accounts)))

  offered-IsLinked : (gs : GenesisState) → Links gs → IsLinked accounts (offered gs)
  unfolding Table.get
  offered-IsLinked gs l =
      put_offers-IsLinked accounts gs.publisher_intents (signed_up gs) (signed_up-IsLinked gs)
        (All-weaken _ _ gs.publisher_intents (λ i. known_publisher gs i.publisher_domain)
          l.publishers)
        (All-of _
          (λ i. signed_up-bare (λ t. IsFresh accounts t i) (λ p t h. h) (λ a r t h. h) gs refl)
          gs.publisher_intents)
        l.offers_apart

  known_subscriber :
      (gs : GenesisState) (a : accounts.Address)
      → any (λ r. accounts.address_eq.beq a (decode accounts r.address)) gs.subscribers ≡ true
      → is_some (get_subscriber accounts a (offered gs)) ≡ true
  known_subscriber gs a e =
      put-Keeps (set_publisher_intent accounts) (λ t. is_some (get_subscriber accounts a t) ≡ true)
        (λ i t h. h) gs.publisher_intents (signed_up gs)
        (ground (
          arith,
          e,
          get_subscriber-put accounts a gs.subscribers
              (put_publishers accounts gs.publishers (bare accounts)),
        ))

  loaded-IsLinked : (gs : GenesisState) → Links gs → IsLinked accounts (loaded gs)
  unfolding Table.get
  loaded-IsLinked gs l =
      put-Keeps (set_default_subscription accounts) (IsLinked accounts)
        (λ x t h. set_default_subscription-IsLinked accounts t h x) gs.default_subscriptions
        (put_intents accounts gs.subscriber_intents (offered gs))
        (put_intents-IsLinked accounts gs.subscriber_intents (offered gs) (offered-IsLinked gs l)
          (All-weaken _ _ gs.subscriber_intents (λ i. known_subscriber gs (address_of accounts i))
            l.subscribers)
          (All-weaken _ _ gs.subscriber_intents
            (λ i. put_offers_serve accounts i gs.publisher_intents (signed_up gs) l.offers_apart)
            l.served)
          (All-of _
            (λ i.
              put-Keeps (set_publisher_intent accounts) (λ t. IsNew accounts t i) (λ p t h. h)
                gs.publisher_intents (signed_up gs)
                (signed_up-bare (λ t. IsNew accounts t i) (λ p t h. h) (λ a r t h. h) gs refl))
            gs.subscriber_intents)
          l.intents_apart)

  -- If the addresses of a genesis decode, its offers and its subscribers' intents have keys of their
  -- own, an offer has its publisher, and a subscriber's intent has its subscriber and an offer that
  -- serves it, then loading the genesis into the store of a chain that starts ends without a panic,
  -- and the store that it leaves is linked.
  pub init_genesis-IsLinked :
      (gs : GenesisState)
      → Links gs
      → (init_genesis accounts gs (bare accounts) ≡ (ok tt, loaded gs))
        × IsLinked accounts (loaded gs)
  unfolding init_genesis
  init_genesis-IsLinked gs l = (
    ground (
      arith,
      for_each-put (set_publisher accounts) (λ p. modify {C = Error} (set_publisher accounts p))
          gs.publishers (bare accounts) (All-of _ (λ p t. refl) gs.publishers),
      for_each-put (λ r. set_subscriber accounts (decode accounts r.address) r) (sign_up accounts)
          gs.subscribers (put_publishers accounts gs.publishers (bare accounts))
          (All-weaken _ _ gs.subscribers (sign_up_lem accounts) l.addresses),
      for_each-put (set_publisher_intent accounts)
          (λ i. modify {C = Error} (set_publisher_intent accounts i)) gs.publisher_intents
          (signed_up gs) (All-of _ (λ i t. refl) gs.publisher_intents),
      for_each-put (λ i. set_subscriber_intent accounts (address_of accounts i) i) (intend accounts)
          gs.subscriber_intents (offered gs)
          (All-weaken _ _ gs.subscriber_intents (intend_lem accounts) l.intent_addresses),
      for_each-put (set_default_subscription accounts)
          (λ x. modify {C = Error} (set_default_subscription accounts x)) gs.default_subscriptions
          (put_intents accounts gs.subscriber_intents (offered gs))
          (All-of _ (λ x t. refl) gs.default_subscriptions),
    ),
    loaded-IsLinked gs l,
  )
