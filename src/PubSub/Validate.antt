-- ===== src/PubSub/Validate.antt =====
-- The stateless checks of x/pubsub/types/pubsub.go and msgs.go. What a check says when it fails is text;
-- only whether it passes is kept.
use Prim.Native.String.{◌++◌ as append_text}
use sommelier.Base.{
  ℕ, String, Bool, true, false, not, ◌&&◌, ◌||◌, none, some, List, any, length, leb, ◌==◌, nat_eq,
  string_eq,
}
use sommelier.Base.Table.Prefix.{is_some}
use sommelier.PubSub.Types.{
  Accounts, Publisher, Subscriber, PublishMethod, pull, push, other_method, AllowedSubscribers,
  anyone, validators, listed, other_allowed, PublisherIntent, SubscriberIntent, DefaultSubscription,
}

abbrev pub max_domain_length : ℕ
max_domain_length = 256

abbrev pub max_url_length : ℕ
max_url_length = 512

abbrev pub max_cert_length : ℕ
max_cert_length = 4096

abbrev pub max_subscription_id_length : ℕ
max_subscription_id_length = 128

abbrev pub max_allowed_subscribers : ℕ
max_allowed_subscribers = 256

module _ (accounts : Accounts) where
  unfoldable pub validate_domain : String → Bool
  validate_domain domain =
      not (domain == "")
      && leb (accounts.length domain) max_domain_length
      && accounts.is_url (append_text "https://" domain)

  unfoldable pub validate_address : String → Bool
  validate_address address = not (address == "") && is_some (accounts.from_bech32 address)

  unfoldable pub validate_ca_certificate : String → Bool
  validate_ca_certificate cert =
      not (cert == "")
      && leb (accounts.length cert) max_cert_length
      && elim (accounts.pem_decode cert) [
        | none ↦ false
        | some (kind, (bytes, rest)) ↦
            rest == 0 && kind == "CERTIFICATE" && elim (accounts.parse_certificate bytes) [
              | none ↦ false
              | some (is_ca, is_ecdsa) ↦ is_ca && is_ecdsa
            ]
      ]

  unfoldable pub validate_subscription_id : String → Bool
  validate_subscription_id id =
      not (id == "") && leb (accounts.length id) max_subscription_id_length

  -- of proposal.go
  unfoldable pub validate_generic_url : String → Bool
  validate_generic_url url =
      not (url == "") && leb (accounts.length url) max_url_length && accounts.is_url url

  unfoldable pub validate_proof_url : String → String → String → Bool
  unfolding validate_generic_url
  validate_proof_url url domain address =
      let valid = append_text domain (append_text "/" (append_text address "/cacert.pem")) in
      not (url == "")
      && validate_generic_url url
      && (url == valid || url == append_text "https://" valid)

  unfoldable pub validate_publisher : Publisher → Bool
  unfolding validate_domain validate_address validate_ca_certificate
  validate_publisher p =
      validate_domain p.domain && validate_address p.address && validate_ca_certificate p.ca_cert

  unfoldable pub validate_subscriber : Subscriber → Bool
  unfolding validate_address validate_ca_certificate validate_generic_url
  validate_subscriber r =
      validate_address r.address
      && (r.ca_cert == "" || validate_ca_certificate r.ca_cert)
      && (r.push_url == "" || validate_generic_url r.push_url)

  abbrev validate_method : PublishMethod → String → Bool
  validate_method pull url = not (url == "") && validate_generic_url url
  validate_method push _ = true
  validate_method (other_method _) _ = false

  abbrev validate_allowed : AllowedSubscribers → List String → Bool
  validate_allowed anyone _ = true
  validate_allowed validators _ = true
  validate_allowed listed addresses =
      not (length addresses == 0)
      && leb (length addresses) max_allowed_subscribers
      && not (any (λ a. not (validate_address a)) addresses)
  validate_allowed (other_allowed _) _ = false

  unfoldable pub validate_publisher_intent : PublisherIntent → Bool
  unfolding validate_subscription_id validate_domain validate_generic_url validate_address
  validate_publisher_intent i =
      validate_subscription_id i.subscription_id
      && validate_domain i.publisher_domain
      && validate_method i.method i.pull_url
      && validate_allowed i.allowed_subscribers i.allowed_addresses

  unfoldable pub validate_subscriber_intent : SubscriberIntent → Bool
  unfolding validate_subscription_id validate_address validate_domain
  validate_subscriber_intent i =
      validate_subscription_id i.subscription_id
      && validate_address i.subscriber_address
      && validate_domain i.publisher_domain

  unfoldable pub validate_default_subscription : DefaultSubscription → Bool
  unfolding validate_subscription_id validate_domain
  validate_default_subscription d =
      validate_subscription_id d.subscription_id && validate_domain d.publisher_domain
