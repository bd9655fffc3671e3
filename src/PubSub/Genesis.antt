-- ===== src/PubSub/Genesis.antt =====
-- The genesis of x/pubsub, x/pubsub/keeper/genesis.go and types/genesis.go, and the checks of whole
-- messages and proposals, types/msgs.go and proposal.go. The module has no parameters.
pub mod Linking
pub mod Loops
pub mod Signing
use sommelier.Base.{String, Bool, false, not, ◌&&◌, Option, none, some, List, [], any}
use sommelier.Base.Exec.{◌>>=◌, ◌>>◌, for_each, modify, or_panic}
use sommelier.Base.Table.Prefix.{is_some}
use sommelier.PubSub.Types.{
  Accounts, Publisher, Subscriber, PublisherIntent, SubscriberIntent, DefaultSubscription,
}
use sommelier.PubSub.Store.{
  State, set_publisher, get_publishers, set_subscriber, get_subscribers, set_publisher_intent,
  get_publisher_intents, set_subscriber_intent, get_subscriber_intents, set_default_subscription,
  get_default_subscriptions,
}
use sommelier.PubSub.Validate.{
  validate_domain, validate_subscription_id, validate_proof_url, validate_publisher,
  validate_subscriber, validate_publisher_intent, validate_subscriber_intent,
  validate_default_subscription,
}
use sommelier.PubSub.Messages.{
  Action, MsgAddPublisherIntentRequest, MsgAddSubscriberIntentRequest, MsgAddSubscriberRequest,
  MsgRemovePublisherIntentRequest, MsgRemoveSubscriberIntentRequest, MsgRemoveSubscriberRequest,
  MsgRemovePublisherRequest,
}
use sommelier.PubSub.Proposals.{AddPublisherProposal}

pub record GenesisState : Type 0 where
  pub publishers : List Publisher
  pub subscribers : List Subscriber
  pub publisher_intents : List PublisherIntent
  pub subscriber_intents : List SubscriberIntent
  pub default_subscriptions : List DefaultSubscription

abbrev pub default_genesis : GenesisState
default_genesis = record {
  publishers = [];
  subscribers = [];
  publisher_intents = [];
  subscriber_intents = [];
  default_subscriptions = [];
}

module _ (accounts : Accounts) where
  unfoldable pub validate_genesis : GenesisState → Bool
  unfolding validate_publisher validate_subscriber validate_publisher_intent
      validate_subscriber_intent validate_default_subscription
  validate_genesis gs =
      not (any (λ p. not (validate_publisher accounts p)) gs.publishers)
      && not (any (λ r. not (validate_subscriber accounts r)) gs.subscribers)
      && not (any (λ i. not (validate_publisher_intent accounts i)) gs.publisher_intents)
      && not (any (λ i. not (validate_subscriber_intent accounts i)) gs.subscriber_intents)
      && not (any (λ d. not (validate_default_subscription accounts d)) gs.default_subscriptions)

  unfoldable pub init_genesis : GenesisState → Action accounts Unit
  unfolding for_each
  init_genesis gs = do
    for_each (λ p. modify (set_publisher accounts p)) gs.publishers
    for_each
        (λ r.
          or_panic (accounts.from_bech32 r.address) >>= λ a. modify (set_subscriber accounts a r))
        gs.subscribers
    for_each (λ i. modify (set_publisher_intent accounts i)) gs.publisher_intents
    for_each
        (λ i. or_panic (accounts.from_bech32 i.subscriber_address) >>= λ a.
          modify (set_subscriber_intent accounts a i))
        gs.subscriber_intents
    for_each (λ d. modify (set_default_subscription accounts d)) gs.default_subscriptions

  abbrev pub export_genesis : State accounts → GenesisState
  export_genesis s = record {
    publishers = get_publishers accounts s;
    subscribers = get_subscribers accounts s;
    publisher_intents = get_publisher_intents accounts s;
    subscriber_intents = get_subscriber_intents accounts s;
    default_subscriptions = get_default_subscriptions accounts s;
  }

  abbrev is_account : String → Bool
  is_account text = is_some (accounts.from_bech32 text)

  -- An optional value, where it is there, passes a check.
  abbrev filled : {A : Type 0} → (A → Bool) → Option A → Bool
  filled f none = false
  filled f (some a) = f a

  -- The `ValidateBasic` of each message.
  unfoldable pub validate_remove_publisher_request : MsgRemovePublisherRequest → Bool
  unfolding validate_domain
  validate_remove_publisher_request m =
      is_account m.signer && validate_domain accounts m.publisher_domain

  unfoldable pub validate_add_subscriber_request : MsgAddSubscriberRequest → Bool
  unfolding validate_subscriber
  validate_add_subscriber_request m =
      is_account m.signer && filled (validate_subscriber accounts) m.subscriber

  unfoldable pub validate_remove_subscriber_request : MsgRemoveSubscriberRequest → Bool
  validate_remove_subscriber_request m = is_account m.signer && is_account m.subscriber_address

  unfoldable pub validate_add_publisher_intent_request : MsgAddPublisherIntentRequest → Bool
  unfolding validate_publisher_intent
  validate_add_publisher_intent_request m =
      is_account m.signer && filled (validate_publisher_intent accounts) m.publisher_intent

  unfoldable pub validate_remove_publisher_intent_request : MsgRemovePublisherIntentRequest → Bool
  unfolding validate_subscription_id validate_domain
  validate_remove_publisher_intent_request m =
      is_account m.signer
      && validate_subscription_id accounts m.subscription_id
      && validate_domain accounts m.publisher_domain

  unfoldable pub validate_add_subscriber_intent_request : MsgAddSubscriberIntentRequest → Bool
  unfolding validate_subscriber_intent
  validate_add_subscriber_intent_request m =
      is_account m.signer && filled (validate_subscriber_intent accounts) m.subscriber_intent

  unfoldable pub validate_remove_subscriber_intent_request : MsgRemoveSubscriberIntentRequest → Bool
  unfolding validate_subscription_id
  validate_remove_subscriber_intent_request m =
      is_account m.signer
      && validate_subscription_id accounts m.subscription_id
      && is_account m.subscriber_address

  -- The `ValidateBasic` of each proposal, which gets what `ValidateAbstract` says of title and description.
  unfoldable pub validate_add_publisher_proposal : Bool → AddPublisherProposal → Bool
  unfolding validate_publisher validate_proof_url
  validate_add_publisher_proposal is_abstract p =
      is_abstract
      && validate_publisher accounts
          (record { address = p.address; ca_cert = p.ca_cert; domain = p.domain })
      && validate_proof_url accounts p.proof_url p.domain p.address

  unfoldable pub validate_remove_publisher_proposal : Bool → String → Bool
  unfolding validate_domain
  validate_remove_publisher_proposal is_abstract d = is_abstract && validate_domain accounts d

  unfoldable pub validate_add_default_subscription_proposal : Bool → DefaultSubscription → Bool
  unfolding validate_default_subscription
  validate_add_default_subscription_proposal is_abstract d =
      is_abstract && validate_default_subscription accounts d

  unfoldable pub validate_remove_default_subscription_proposal : Bool → String → Bool
  unfolding validate_subscription_id
  validate_remove_default_subscription_proposal is_abstract u =
      is_abstract && validate_subscription_id accounts u
