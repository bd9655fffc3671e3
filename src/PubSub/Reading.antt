-- ===== src/PubSub/Reading.antt =====
-- The answers of x/pubsub/keeper/query_server.go, with the two lists of keeper.go that only they use.
use sommelier.Base.{String, not, Option, List, ◌==◌, string_eq}
use sommelier.Base.Exec.{◌>>=◌, ◌>>◌, gets, or_raise, raise_if, wrapped}
use sommelier.Base.Table.Prefix.{under}
use sommelier.Queries.{Query, invalid_argument, lookup}
use sommelier.PubSub.Types.{
  Accounts, Publisher, Subscriber, PublisherIntent, SubscriberIntent, DefaultSubscription,
}
use sommelier.PubSub.Store.{
  State, get_publisher, get_publishers, get_subscriber, get_subscribers, get_publisher_intent,
  get_publisher_intents, get_publisher_intents_by_publisher_domain, get_subscriber_intent,
  get_subscriber_intents, get_subscriber_intents_by_subscriber_address,
  get_subscriber_intents_by_publisher_domain, get_default_subscription, get_default_subscriptions,
}
use sommelier.PubSub.Validate.{validate_domain, validate_subscription_id}

module _ (accounts : Accounts) where
  abbrev pub get_publisher_intents_by_subscription_id :
      String → State accounts → List PublisherIntent
  get_publisher_intents_by_subscription_id id s =
      under (λ k. k.0 == id) s.publisher_intents_by_subscription

  abbrev pub get_subscriber_intents_by_subscription_id :
      String → State accounts → List SubscriberIntent
  get_subscriber_intents_by_subscription_id id s =
      under (λ k. k.0 == id) s.subscriber_intents_by_subscription

  abbrev pub Asks : Type 0 → Type 0
  Asks A = Query (State accounts) A

  -- The checks of the parts of a request.
  abbrev pub need_domain : String → Asks (Unit {0})
  need_domain domain = raise_if (not (validate_domain accounts domain)) (wrapped invalid_argument)

  abbrev pub need_subscription_id : String → Asks (Unit {0})
  need_subscription_id id =
      raise_if (not (validate_subscription_id accounts id)) (wrapped invalid_argument)

  abbrev pub need_address : String → Asks accounts.Address
  need_address text = or_raise (accounts.from_bech32 text) (wrapped invalid_argument)

  -- The request for what one text names, and the text.
  abbrev pub need_request : {A : Type 0} → Option A → Asks A
  need_request request = or_raise request (wrapped invalid_argument)

  unfoldable pub query_publisher : Option String → Asks Publisher
  unfolding validate_domain lookup
  query_publisher request = do
    domain ← need_request request
    need_domain domain
    lookup (get_publisher accounts domain)

  abbrev pub query_publishers : Asks (List Publisher)
  query_publishers = gets (get_publishers accounts)

  unfoldable pub query_subscriber : Option String → Asks Subscriber
  unfolding lookup
  query_subscriber request = do
    text ← need_request request
    a ← need_address text
    lookup (get_subscriber accounts a)

  abbrev pub query_subscribers : Asks (List Subscriber)
  query_subscribers = gets (get_subscribers accounts)

  -- The domain and the id of a request.
  unfoldable pub query_publisher_intent : Option (String × String) → Asks PublisherIntent
  unfolding validate_domain validate_subscription_id lookup
  query_publisher_intent request = do
    asked ← need_request request
    need_domain asked.0
    need_subscription_id asked.1
    lookup (get_publisher_intent accounts asked.1 asked.0)

  abbrev pub query_publisher_intents : Asks (List PublisherIntent)
  query_publisher_intents = gets (get_publisher_intents accounts)

  unfoldable pub query_publisher_intents_by_publisher_domain :
      Option String → Asks (List PublisherIntent)
  unfolding validate_domain
  query_publisher_intents_by_publisher_domain request = do
    domain ← need_request request
    need_domain domain
    gets (get_publisher_intents_by_publisher_domain accounts domain)

  unfoldable pub query_publisher_intents_by_subscription_id :
      Option String → Asks (List PublisherIntent)
  unfolding validate_subscription_id
  query_publisher_intents_by_subscription_id request = do
    id ← need_request request
    need_subscription_id id
    gets (get_publisher_intents_by_subscription_id id)

  -- The address and the id of a request.
  unfoldable pub query_subscriber_intent : Option (String × String) → Asks SubscriberIntent
  unfolding validate_subscription_id lookup
  query_subscriber_intent request = do
    asked ← need_request request
    a ← need_address asked.0
    need_subscription_id asked.1
    lookup (get_subscriber_intent accounts asked.1 a)

  abbrev pub query_subscriber_intents : Asks (List SubscriberIntent)
  query_subscriber_intents = gets (get_subscriber_intents accounts)

  unfoldable pub query_subscriber_intents_by_subscriber_address :
      Option String → Asks (List SubscriberIntent)
  query_subscriber_intents_by_subscriber_address request = do
    text ← need_request request
    a ← need_address text
    gets (get_subscriber_intents_by_subscriber_address accounts a)

  unfoldable pub query_subscriber_intents_by_subscription_id :
      Option String → Asks (List SubscriberIntent)
  unfolding validate_subscription_id
  query_subscriber_intents_by_subscription_id request = do
    id ← need_request request
    need_subscription_id id
    gets (get_subscriber_intents_by_subscription_id id)

  unfoldable pub query_subscriber_intents_by_publisher_domain :
      Option String → Asks (List SubscriberIntent)
  unfolding validate_domain
  query_subscriber_intents_by_publisher_domain request = do
    domain ← need_request request
    need_domain domain
    gets (get_subscriber_intents_by_publisher_domain accounts domain)

  unfoldable pub query_default_subscription : Option String → Asks DefaultSubscription
  unfolding validate_subscription_id lookup
  query_default_subscription request = do
    id ← need_request request
    need_subscription_id id
    lookup (get_default_subscription accounts id)

  abbrev pub query_default_subscriptions : Asks (List DefaultSubscription)
  query_default_subscriptions = gets (get_default_subscriptions accounts)
