-- ===== src/PubSub/Tests.antt =====
-- A run of x/pubsub: a publisher, an offer to a list, a subscriber on the list, and the removals.
mod Loading
use sommelier.Base.{
  ◌≡◌, ◌≢◌, refl, ℕ, String, true, false, Option, none, some, [], ◌∷◌, ◌==◌, string_eq,
  if◌then◌else◌,
}
use sommelier.Base.Exec.{ok}
use sommelier.Base.Table
use sommelier.PubSub.Types.{Accounts, pull, listed, PublisherIntent, SubscriberIntent}
use sommelier.PubSub.Store.{State}
use sommelier.PubSub.Messages.{
  MsgAddSubscriberIntentRequest, MsgRemovePublisherRequest, MsgRemoveSubscriberRequest,
  add_publisher_intent, add_subscriber, remove_publisher, remove_subscriber, add_subscriber_intent,
}
use sommelier.PubSub.Validate.{
  validate_publisher_intent, validate_subscriber, validate_subscriber_intent,
  validate_subscription_id, validate_domain, validate_address, validate_generic_url,
}
use sommelier.PubSub.Proposals.{handle_add_publisher, handle_add_default_subscription}
use sommelier.PubSub.Handler.{
  Msg, msg_add_subscriber, msg_add_publisher_intent, msg_add_subscriber_intent,
  msg_remove_publisher, add_publisher_proposal, add_default_subscription_proposal, new_handler,
  new_pubsub_proposal_handler,
}
use sommelier.PubSub.Messages.Effects.{add_subscriber_intent_ok, AddsSubscriberIntent}
use sommelier.PubSub.Linked.{IsLinked}
use sommelier.PubSub.Genesis.Signing.{bare, bare-IsLinked}
use sommelier.PubSub.Linked.Reach.{Reach, start, step, message, proposal, Reach-IsLinked}
use sommelier.PubSub.Linked.Removes.{
  RemovesPublisher, RemovesSubscriber, remove_publisher_removes, remove_subscriber_removes,
}

abbrev decode_pem : String → Option (String × (String × ℕ))
decode_pem cert = some ("CERTIFICATE", (cert, 0))

abbrev pub accounts : Accounts
accounts = record {
  Address = String;
  address_eq = string_eq;
  from_bech32 = λ s. if s == "" then none else some s;
  text = λ a. a;
  no_address = "";
  before_hash = λ a b. false;
  before_address = λ a b. false;
  length = λ s. 4;
  is_url = λ s. true;
  pem_decode = decode_pem;
  parse_certificate = λ b. some (true, true);
  is_validator = λ a. false;
}

abbrev pub offer : PublisherIntent
offer = record {
  subscription_id = "1:cellar";
  publisher_domain = "strategist.org";
  method = pull;
  pull_url = "https://strategist.org";
  allowed_subscribers = listed;
  allowed_addresses = "alice" ∷ [];
}

abbrev pub wanted : SubscriberIntent
wanted = record {
  subscription_id = "1:cellar";
  subscriber_address = "alice";
  publisher_domain = "strategist.org";
}

abbrev add_offer : Msg
add_offer = msg_add_publisher_intent (record { publisher_intent = some offer; signer = "bob" })

abbrev add_alice : Msg
add_alice = msg_add_subscriber (record {
  subscriber = some (record { address = "alice"; ca_cert = ""; push_url = "" });
  signer = "alice";
})

abbrev add_wanted : MsgAddSubscriberIntentRequest
add_wanted = record { subscriber_intent = some wanted; signer = "alice" }

abbrev with_publisher : State accounts
with_publisher =
    (new_pubsub_proposal_handler accounts
      (add_publisher_proposal (record {
        domain = "strategist.org";
        address = "bob";
        proof_url = "strategist.org/bob/cacert.pem";
        ca_cert = "pem";
      }))
      (bare accounts)).1

abbrev with_default : State accounts
with_default =
    (new_pubsub_proposal_handler accounts
      (add_default_subscription_proposal
        (record { subscription_id = "1:cellar"; publisher_domain = "strategist.org" }))
      with_publisher).1

abbrev with_offer : State accounts
with_offer = (new_handler accounts add_offer with_default).1

abbrev with_alice : State accounts
with_alice = (new_handler accounts add_alice with_offer).1

abbrev with_wanted : State accounts
with_wanted = (new_handler accounts (msg_add_subscriber_intent add_wanted) with_alice).1

run : Reach accounts (bare accounts) with_wanted
run =
    step
      (step
        (step (step (step start (proposal _ (bare accounts))) (proposal _ with_publisher))
          (message add_offer with_default))
        (message add_alice with_offer))
      (message (msg_add_subscriber_intent add_wanted) with_alice)

Reach-IsLinked_example : IsLinked accounts with_wanted
Reach-IsLinked_example = Reach-IsLinked accounts (bare-IsLinked accounts) run

abbrev bobs_removal : MsgRemovePublisherRequest
bobs_removal = record { publisher_domain = "strategist.org"; signer = "bob" }

abbrev alices_removal : MsgRemoveSubscriberRequest
alices_removal = record { subscriber_address = "alice"; signer = "alice" }

alice_fails :
    (new_handler accounts
      (msg_remove_publisher (record { publisher_domain = "strategist.org"; signer = "alice" }))
      with_wanted).0
    ≢ ok tt
unfolding new_handler new_pubsub_proposal_handler handle_add_publisher
    handle_add_default_subscription add_publisher_intent add_subscriber add_subscriber_intent
    remove_publisher remove_subscriber validate_publisher_intent validate_subscriber
    validate_subscriber_intent validate_subscription_id validate_domain validate_address
    validate_generic_url Table.get Table.set
alice_fails e = cc

goes : (add_subscriber_intent accounts add_wanted with_alice).0 ≡ ok tt
unfolding new_handler new_pubsub_proposal_handler handle_add_publisher
    handle_add_default_subscription add_publisher_intent add_subscriber add_subscriber_intent
    remove_publisher remove_subscriber validate_publisher_intent validate_subscriber
    validate_subscriber_intent validate_subscription_id validate_domain validate_address
    validate_generic_url Table.get Table.set
goes = refl

bob_goes : (remove_publisher accounts bobs_removal with_wanted).0 ≡ ok tt
unfolding new_handler new_pubsub_proposal_handler handle_add_publisher
    handle_add_default_subscription add_publisher_intent add_subscriber add_subscriber_intent
    remove_publisher remove_subscriber validate_publisher_intent validate_subscriber
    validate_subscriber_intent validate_subscription_id validate_domain validate_address
    validate_generic_url Table.get Table.set
bob_goes = refl

alice_goes : (remove_subscriber accounts alices_removal with_wanted).0 ≡ ok tt
unfolding new_handler new_pubsub_proposal_handler handle_add_publisher
    handle_add_default_subscription add_publisher_intent add_subscriber add_subscriber_intent
    remove_publisher remove_subscriber validate_publisher_intent validate_subscriber
    validate_subscriber_intent validate_subscription_id validate_domain validate_address
    validate_generic_url Table.get Table.set
alice_goes = refl

add_subscriber_intent_ok_example :
    AddsSubscriberIntent accounts add_wanted with_alice
      (add_subscriber_intent accounts add_wanted with_alice).1
add_subscriber_intent_ok_example = add_subscriber_intent_ok accounts add_wanted with_alice goes

remove_publisher_removes_example :
    RemovesPublisher accounts with_wanted bobs_removal
      (remove_publisher accounts bobs_removal with_wanted).1
remove_publisher_removes_example =
    remove_publisher_removes accounts with_wanted
      (Reach-IsLinked accounts (bare-IsLinked accounts) run) bobs_removal bob_goes
