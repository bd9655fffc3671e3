-- ===== src/PubSub/Genesis/Signing.antt =====
-- The store that a genesis of x/pubsub is loaded into, and the loops over publishers and subscribers.
use sommelier.Base.{
  ◌≡◌, refl, String, true, ◌||◌, List, [], ◌∷◌, any, All, arith, ◌==◌, string_eq, Option-cases, inl,
  inr,
}
use sommelier.Base.Exec.{ok, modify, or_panic, ◌>>=◌}
use sommelier.Base.Table
use sommelier.Base.Table.{get-set}
use sommelier.Base.Table.Prefix.{is_some}
use sommelier.PubSub.Types.{
  Accounts, Publisher, Subscriber, SubscriberIntent, hashed, by_address, address_of, decode,
}
use sommelier.PubSub.Store.{
  State, get_publisher, get_subscriber, set_publisher, set_subscriber, set_subscriber_intent,
}
use sommelier.PubSub.Linked.{IsLinked}
use sommelier.PubSub.Messages.{Action}
use sommelier.PubSub.Genesis.Loops.{put}

pub All-of : {A : Type 0} (P : A → Type 0) → ((x : A) → P x) → (xs : List A) → All P xs
All-of P f [] = tt
All-of P f (x ∷ xs) = (f x, All-of P f xs)

module _ (accounts : Accounts) where
  -- The store of a chain that starts.
  abbrev pub bare : State accounts
  bare = record {
    publishers = [];
    subscribers = [];
    publisher_intents = [];
    publisher_intents_by_subscription = [];
    subscriber_intents = [];
    subscriber_intents_by_subscription = [];
    subscriber_intents_by_domain = [];
    default_subscriptions = [];
  }

  pub bare-IsLinked : IsLinked accounts bare
  unfolding Table.get
  bare-IsLinked = record {
    indexed = record {
      intents = tt;
      sub_intents = tt;
      sub_intents_of = tt;
      defaults = tt;
      same_intents = λ d u. refl;
      same_sub_intents = λ a u. refl;
      same_domain = λ d a u. refl;
    };
    subscribers = λ a u k. cc;
    offers = λ a u i k. cc;
    publishers = λ d u k. cc;
  }

  abbrev pub put_publishers : List Publisher → State accounts → State accounts
  put_publishers = put (set_publisher accounts)

  abbrev pub put_subscribers : List Subscriber → State accounts → State accounts
  put_subscribers = put (λ r. set_subscriber accounts (decode accounts r.address) r)

  pub get_publisher-put :
      (d : String) (ps : List Publisher) (s : State accounts)
      → is_some (get_publisher accounts d (put_publishers ps s))
        ≡ (any (λ p. d == p.domain) ps || is_some (get_publisher accounts d s))
  unfolding put
  get_publisher-put d [] s = refl
  get_publisher-put d (p ∷ ps) s = ground (
    arith,
    get_publisher-put d ps (set_publisher accounts p s),
    get-set ⦃key = hashed accounts⦄ p.domain d p s.publishers,
  )

  pub get_subscriber-put :
      (a : accounts.Address) (rs : List Subscriber) (s : State accounts)
      → is_some (get_subscriber accounts a (put_subscribers rs s)) ≡ (
          any (λ r. accounts.address_eq.beq a (decode accounts r.address)) rs
          || is_some (get_subscriber accounts a s))
  unfolding put
  get_subscriber-put a [] s = refl
  get_subscriber-put a (r ∷ rs) s = ground (
    arith,
    get_subscriber-put a rs (set_subscriber accounts (decode accounts r.address) r s),
    get-set ⦃key = by_address accounts⦄ (decode accounts r.address) a r s.subscribers,
  )

  -- The bodies of the loops that read addresses.
  abbrev pub sign_up : Subscriber → Action accounts (Unit {0})
  sign_up r =
      or_panic (accounts.from_bech32 r.address) >>= λ a. modify (set_subscriber accounts a r)

  abbrev pub intend : SubscriberIntent → Action accounts (Unit {0})
  intend i = or_panic (accounts.from_bech32 i.subscriber_address) >>= λ a.
      modify (set_subscriber_intent accounts a i)

  pub sign_up_lem :
      (r : Subscriber)
      → is_some (accounts.from_bech32 r.address) ≡ true
      → (t : State accounts)
      → sign_up r t ≡ (ok tt, set_subscriber accounts (decode accounts r.address) r t)
  sign_up_lem r e t = elim (Option-cases (accounts.from_bech32 r.address)) [
    | inl n ↦ absurd (ground (arith, n, e))
    | inr (a, n) ↦ ground (arith, n)
  ]

  pub intend_lem :
      (i : SubscriberIntent)
      → is_some (accounts.from_bech32 i.subscriber_address) ≡ true
      → (t : State accounts)
      → intend i t ≡ (ok tt, set_subscriber_intent accounts (address_of accounts i) i t)
  intend_lem i e t = elim (Option-cases (accounts.from_bech32 i.subscriber_address)) [
    | inl n ↦ absurd (ground (arith, n, e))
    | inr (a, n) ↦ ground (arith, n)
  ]
