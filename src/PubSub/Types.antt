-- ===== src/PubSub/Types.antt =====
-- The data and the store of x/pubsub: proto/pubsub/v1 and x/pubsub/types/keys.go. Texts are hashed to
-- make keys; two texts of one hash are left out of account, so that a key is read as its texts.
use sommelier.Base.{ℕ, String, Bool, Option, none, some, List, string_eq, Eq}
use sommelier.Base.Table.{Key, Table}

-- Accounts, hashes and the checks of texts, of the SDK and the standard library.
pub record Accounts : Type 1 where
  -- `sdk.AccAddress`, `AccAddressFromBech32` and `String`; what the first gives beside an error
  pub Address : Type 0
  pub address_eq : Eq Address
  pub from_bech32 : String → Option Address
  pub text : Address → String
  pub no_address : Address
  -- the order of two hashes, and of the bytes of two addresses
  pub before_hash : String → String → Bool
  pub before_address : Address → Address → Bool
  -- `len` of a text
  pub length : String → ℕ
  -- whether `url.Parse` accepts a text
  pub is_url : String → Bool
  -- `pem.Decode`: the block's type and bytes, and the length of the rest
  pub pem_decode : String → Option (String × (String × ℕ))
  -- `x509.ParseCertificate`: whether it is of a CA, and whether its key is an ECDSA one
  pub parse_certificate : String → Option (Bool × Bool)
  -- whether the staking module knows the validator of an orchestrator, or else of the account itself
  pub is_validator : Address → Bool

pub record Publisher : Type 0 where
  pub address : String
  pub ca_cert : String
  pub domain : String

pub record Subscriber : Type 0 where
  pub address : String
  pub ca_cert : String
  pub push_url : String

pub data PublishMethod : Type 0 where
  pull push : PublishMethod
  other_method : ℕ → PublishMethod

pub data AllowedSubscribers : Type 0 where
  anyone validators listed : AllowedSubscribers
  other_allowed : ℕ → AllowedSubscribers

pub record PublisherIntent : Type 0 where
  pub subscription_id : String
  pub publisher_domain : String
  pub method : PublishMethod
  pub pull_url : String
  pub allowed_subscribers : AllowedSubscribers
  pub allowed_addresses : List String

pub record SubscriberIntent : Type 0 where
  pub subscription_id : String
  pub subscriber_address : String
  pub publisher_domain : String

pub record DefaultSubscription : Type 0 where
  pub subscription_id : String
  pub publisher_domain : String

-- The sentinels of the module, the SDK's that it returns, the last three of them.
pub data Error : Type 0 where
  already_exists invalid not_found unauthorized invalid_address unknown_request : Error

-- One table for each prefix of keys.go.
pub record PubSub (Address : Type 0) : Type 0 where
  pub publishers : Table String Publisher
  pub subscribers : Table Address Subscriber
  pub publisher_intents : Table (String × String) PublisherIntent
  pub publisher_intents_by_subscription : Table (String × String) PublisherIntent
  pub subscriber_intents : Table (Address × String) SubscriberIntent
  pub subscriber_intents_by_subscription : Table (String × Address) SubscriberIntent
  pub subscriber_intents_by_domain : Table (String × (Address × String)) SubscriberIntent
  pub default_subscriptions : Table String DefaultSubscription

module _ (accounts : Accounts) where
  -- The keys of texts by their hashes, and of addresses by their bytes.
  abbrev pub hashed : Key String
  hashed = record { eq = string_eq; before = accounts.before_hash }

  abbrev pub by_address : Key accounts.Address
  by_address = record { eq = accounts.address_eq; before = accounts.before_address }

  -- The address of a text, where an error of the decoder is ignored.
  abbrev pub decode : String → accounts.Address
  decode text = elim (accounts.from_bech32 text) [ none ↦ accounts.no_address | some a ↦ a ]

  abbrev pub address_of : SubscriberIntent → accounts.Address
  address_of i = decode i.subscriber_address
