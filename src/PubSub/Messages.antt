-- ===== src/PubSub/Messages.antt =====
-- The handlers of x/pubsub/keeper/msg_server.go. The events that they emit are left out.
pub mod Effects
use sommelier.Base.{
  String, Bool, true, false, not, ◌&&◌, Option, none, some, List, any, ◌==◌, string_eq,
}
use sommelier.Base.Exec.{Exec, wrapped, ◌>>=◌, ◌>>◌, gets, or_panic, or_raise, raise_if, modify}
use sommelier.Base.Table.Prefix.{is_some}
use sommelier.PubSub.Types.{
  Accounts, Publisher, Subscriber, PublishMethod, pull, push, other_method, AllowedSubscribers,
  anyone, validators, listed, other_allowed, PublisherIntent, SubscriberIntent, Error,
  already_exists, invalid, not_found, unauthorized, invalid_address, decode, address_of,
}
use sommelier.PubSub.Store.{
  State, get_publisher, get_subscriber, set_subscriber, get_publisher_intent, set_publisher_intent,
  get_subscriber_intent, set_subscriber_intent, delete_subscriber_intent, delete_publisher_intent,
  delete_publisher, delete_subscriber,
}
use sommelier.PubSub.Validate.{
  validate_domain, validate_address, validate_subscription_id, validate_subscriber,
  validate_publisher_intent, validate_subscriber_intent,
}

-- The requests; a pointer that is nil is `none`.
pub record MsgAddPublisherIntentRequest : Type 0 where
  pub publisher_intent : Option PublisherIntent
  pub signer : String

pub record MsgAddSubscriberIntentRequest : Type 0 where
  pub subscriber_intent : Option SubscriberIntent
  pub signer : String

pub record MsgAddSubscriberRequest : Type 0 where
  pub subscriber : Option Subscriber
  pub signer : String

pub record MsgRemovePublisherIntentRequest : Type 0 where
  pub subscription_id : String
  pub publisher_domain : String
  pub signer : String

pub record MsgRemoveSubscriberIntentRequest : Type 0 where
  pub subscription_id : String
  pub subscriber_address : String
  pub signer : String

pub record MsgRemoveSubscriberRequest : Type 0 where
  pub subscriber_address : String
  pub signer : String

pub record MsgRemovePublisherRequest : Type 0 where
  pub publisher_domain : String
  pub signer : String

abbrev pub is_push : PublishMethod → Bool
is_push push = true
is_push pull = false
is_push (other_method _) = false

module _ (accounts : Accounts) where
  abbrev pub Action : Type 0 → Type 0
  Action A = Exec (State accounts) Error A

  -- Whether an intent's rule lets a signer subscribe.
  abbrev pub admits : PublisherIntent → accounts.Address → Bool
  admits i signer = elim i.allowed_subscribers [
    | anyone ↦ true
    | validators ↦ accounts.is_validator signer
    | listed ↦ any (λ allowed. allowed == accounts.text signer) i.allowed_addresses
    | other_allowed _ ↦ true
  ]

  unfoldable pub add_publisher_intent : MsgAddPublisherIntentRequest → Action Unit
  add_publisher_intent m = do
    i ← or_panic m.publisher_intent
    raise_if (not (validate_publisher_intent accounts i)) (wrapped invalid)
    found ← gets (get_publisher accounts i.publisher_domain)
    publisher ← or_raise found (wrapped not_found)
    signer ← or_panic (accounts.from_bech32 m.signer)
    raise_if (not (accounts.text signer == publisher.address)) (wrapped unauthorized)
    known ← gets (get_publisher_intent accounts i.subscription_id i.publisher_domain)
    raise_if (is_some known) (wrapped already_exists)
    modify (set_publisher_intent accounts i)

  unfoldable pub add_subscriber_intent : MsgAddSubscriberIntentRequest → Action Unit
  add_subscriber_intent m = do
    i ← or_panic m.subscriber_intent
    raise_if (not (validate_subscriber_intent accounts i)) (wrapped invalid)
    signer ← or_panic (accounts.from_bech32 m.signer)
    raise_if (not (accounts.text signer == i.subscriber_address)) (wrapped unauthorized)
    found ← gets (get_subscriber accounts (address_of accounts i))
    subscriber ← or_raise found (wrapped not_found)
    known ← gets (get_subscriber_intent accounts i.subscription_id (address_of accounts i))
    raise_if (is_some known) (wrapped already_exists)
    offered ← gets (get_publisher_intent accounts i.subscription_id i.publisher_domain)
    offer ← or_raise offered (wrapped not_found)
    raise_if (is_push offer.method && subscriber.push_url == "") (wrapped invalid)
    raise_if (not (admits offer signer)) (wrapped unauthorized)
    modify (set_subscriber_intent accounts (address_of accounts i) i)

  unfoldable pub add_subscriber : MsgAddSubscriberRequest → Action Unit
  add_subscriber m = do
    r ← or_panic m.subscriber
    raise_if (not (validate_subscriber accounts r)) (wrapped invalid)
    signer ← or_panic (accounts.from_bech32 m.signer)
    raise_if (not (accounts.text signer == r.address)) (wrapped unauthorized)
    modify (set_subscriber accounts (decode accounts r.address) r)

  unfoldable pub remove_publisher_intent : MsgRemovePublisherIntentRequest → Action Unit
  remove_publisher_intent m = do
    raise_if (not (validate_subscription_id accounts m.subscription_id)) (wrapped invalid)
    raise_if (not (validate_domain accounts m.publisher_domain)) (wrapped invalid)
    found ← gets (get_publisher accounts m.publisher_domain)
    publisher ← or_raise found (wrapped not_found)
    signer ← or_panic (accounts.from_bech32 m.signer)
    raise_if (not (accounts.text signer == publisher.address)) (wrapped unauthorized)
    known ← gets (get_publisher_intent accounts m.subscription_id m.publisher_domain)
    raise_if (not (is_some known)) (wrapped not_found)
    modify (delete_publisher_intent accounts m.subscription_id m.publisher_domain)

  unfoldable pub remove_subscriber_intent : MsgRemoveSubscriberIntentRequest → Action Unit
  remove_subscriber_intent m = do
    raise_if (not (validate_subscription_id accounts m.subscription_id)) (wrapped invalid)
    raise_if (not (validate_address accounts m.subscriber_address)) (wrapped invalid_address)
    found ← gets (get_subscriber accounts (decode accounts m.subscriber_address))
    subscriber ← or_raise found (wrapped not_found)
    signer ← or_panic (accounts.from_bech32 m.signer)
    raise_if (not (accounts.text signer == subscriber.address)) (wrapped unauthorized)
    known ←
        gets
          (get_subscriber_intent accounts m.subscription_id (decode accounts m.subscriber_address))
    i ← or_raise known (wrapped not_found)
    modify (
        delete_subscriber_intent accounts m.subscription_id (decode accounts m.subscriber_address)
          i.publisher_domain)

  unfoldable pub remove_subscriber : MsgRemoveSubscriberRequest → Action Unit
  remove_subscriber m = do
    raise_if (not (validate_address accounts m.subscriber_address)) (wrapped invalid_address)
    signer ← or_panic (accounts.from_bech32 m.signer)
    raise_if (not (accounts.text signer == m.subscriber_address)) (wrapped unauthorized)
    found ← gets (get_subscriber accounts (decode accounts m.subscriber_address))
    raise_if (not (is_some found)) (wrapped not_found)
    modify (delete_subscriber accounts (decode accounts m.subscriber_address))

  unfoldable pub remove_publisher : MsgRemovePublisherRequest → Action Unit
  remove_publisher m = do
    raise_if (not (validate_domain accounts m.publisher_domain)) (wrapped invalid)
    found ← gets (get_publisher accounts m.publisher_domain)
    publisher ← or_raise found (wrapped not_found)
    signer ← or_panic (accounts.from_bech32 m.signer)
    raise_if (not (accounts.text signer == publisher.address)) (wrapped unauthorized)
    modify (delete_publisher accounts m.publisher_domain)
