-- ===== src/PubSub/Linked.antt =====
-- What the store of x/pubsub promises: its indices agree, and no intent outlives what it needs.
pub mod Deletes
pub mod Loops
pub mod Publishers
pub mod Removes
pub mod Single
pub mod Reach
pub mod Sets
pub mod Own
pub mod Subscribers
use sommelier.Base.{
  ◌≡◌, String, Bool, true, false, not, ◌||◌, Option, none, some, any, ◌==◌, string_eq,
}
use sommelier.Base.Table.Prefix.{is_some}
use sommelier.PubSub.Types.{
  Accounts, AllowedSubscribers, anyone, validators, listed, other_allowed, PublisherIntent,
  SubscriberIntent,
}
use sommelier.PubSub.Store.{State, get_publisher, get_subscriber}
use sommelier.PubSub.Removal.{intent_at, sub_intent_at, IsIndexed}

abbrev pub is_listed : AllowedSubscribers → Bool
is_listed listed = true
is_listed anyone = false
is_listed validators = false
is_listed (other_allowed _) = false

-- Whether there is an intent of a publisher that a subscriber's intent may stand on.
abbrev pub serves : Option PublisherIntent → SubscriberIntent → Bool
serves none i = false
serves (some p) i =
    not (is_listed p.allowed_subscribers)
    || any (λ allowed. allowed == i.subscriber_address) p.allowed_addresses

module _ (accounts : Accounts) where
  abbrev pub HasSubscribers : State accounts → Type 0
  HasSubscribers s =
      (a : accounts.Address) (u : String)
      → is_some (sub_intent_at accounts a u s) ≡ true
      → is_some (get_subscriber accounts a s) ≡ true

  abbrev pub HasOffers : State accounts → Type 0
  HasOffers s =
      (a : accounts.Address) (u : String) (i : SubscriberIntent)
      → sub_intent_at accounts a u s ≡ some i
      → serves (intent_at accounts i.publisher_domain u s) i ≡ true

  abbrev pub HasPublisher : String → State accounts → Type 0
  HasPublisher d s =
      (u : String)
      → is_some (intent_at accounts d u s) ≡ true
      → is_some (get_publisher accounts d s) ≡ true

  -- The indices agree; a publisher's intent has its publisher; a subscriber's intent has its subscriber,
  -- and the publisher's intent, on whose list it is where that has one.
  pub record IsLinked (s : State accounts) : Type 0 where
    pub indexed : IsIndexed accounts s
    pub subscribers : HasSubscribers s
    pub offers : HasOffers s
    pub publishers : (d : String) → HasPublisher d s
