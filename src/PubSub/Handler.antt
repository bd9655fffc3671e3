-- ===== src/PubSub/Handler.antt =====
-- The messages and the proposals of x/pubsub and who handles them: x/pubsub/handler.go.
use sommelier.Base.{String}
use sommelier.Base.Exec.{raise, wrapped}
use sommelier.PubSub.Types.{Accounts, DefaultSubscription, unknown_request}
use sommelier.PubSub.Messages.{
  MsgAddPublisherIntentRequest, MsgAddSubscriberIntentRequest, MsgAddSubscriberRequest,
  MsgRemovePublisherIntentRequest, MsgRemoveSubscriberIntentRequest, MsgRemoveSubscriberRequest,
  MsgRemovePublisherRequest, Action, add_publisher_intent, add_subscriber_intent, add_subscriber,
  remove_publisher_intent, remove_subscriber_intent, remove_subscriber, remove_publisher,
}
use sommelier.PubSub.Proposals.{
  AddPublisherProposal, handle_add_publisher, handle_remove_publisher,
  handle_add_default_subscription, handle_remove_default_subscription,
}

pub data Msg : Type 0 where
  msg_remove_publisher : MsgRemovePublisherRequest → Msg
  msg_add_subscriber : MsgAddSubscriberRequest → Msg
  msg_remove_subscriber : MsgRemoveSubscriberRequest → Msg
  msg_add_publisher_intent : MsgAddPublisherIntentRequest → Msg
  msg_remove_publisher_intent : MsgRemovePublisherIntentRequest → Msg
  msg_add_subscriber_intent : MsgAddSubscriberIntentRequest → Msg
  msg_remove_subscriber_intent : MsgRemoveSubscriberIntentRequest → Msg
  unrecognized_msg : Msg

pub data Content : Type 0 where
  add_publisher_proposal : AddPublisherProposal → Content
  remove_publisher_proposal : String → Content
  add_default_subscription_proposal : DefaultSubscription → Content
  remove_default_subscription_proposal : String → Content
  unrecognized_content : Content

module _ (accounts : Accounts) where
  unfoldable pub new_handler : Msg → Action accounts Unit
  unfolding remove_publisher add_subscriber remove_subscriber add_publisher_intent
      remove_publisher_intent add_subscriber_intent remove_subscriber_intent
  new_handler (msg_remove_publisher m) = remove_publisher accounts m
  new_handler (msg_add_subscriber m) = add_subscriber accounts m
  new_handler (msg_remove_subscriber m) = remove_subscriber accounts m
  new_handler (msg_add_publisher_intent m) = add_publisher_intent accounts m
  new_handler (msg_remove_publisher_intent m) = remove_publisher_intent accounts m
  new_handler (msg_add_subscriber_intent m) = add_subscriber_intent accounts m
  new_handler (msg_remove_subscriber_intent m) = remove_subscriber_intent accounts m
  new_handler unrecognized_msg = raise (wrapped unknown_request)

  unfoldable pub new_pubsub_proposal_handler : Content → Action accounts Unit
  unfolding handle_add_publisher handle_remove_publisher handle_add_default_subscription
      handle_remove_default_subscription
  new_pubsub_proposal_handler (add_publisher_proposal p) = handle_add_publisher accounts p
  new_pubsub_proposal_handler (remove_publisher_proposal d) = handle_remove_publisher accounts d
  new_pubsub_proposal_handler (add_default_subscription_proposal x) =
      handle_add_default_subscription accounts x
  new_pubsub_proposal_handler (remove_default_subscription_proposal u) =
      handle_remove_default_subscription accounts u
  new_pubsub_proposal_handler unrecognized_content = raise (wrapped unknown_request)
