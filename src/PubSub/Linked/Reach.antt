-- ===== src/PubSub/Linked/Reach.antt =====
-- The steps of x/pubsub, by messages and proposals, and what holds of every store that they reach.
use sommelier.Base.{◌≡◌, ◌≢◌, refl, true, not, some, arith, string_eq, inl, inr}
use sommelier.Base.Exec.{Outcome-cases, ok, if_kept}
use sommelier.Base.Table.Prefix.{is_some}
use sommelier.PubSub.Types.{
  Accounts, PublisherIntent, SubscriberIntent, decode, already_exists, not_found,
}
use sommelier.PubSub.Store.{
  State, delete_publisher, get_publisher, set_publisher, get_default_subscription,
  delete_default_subscription,
}
use sommelier.PubSub.Messages.{
  MsgAddPublisherIntentRequest, MsgAddSubscriberIntentRequest, MsgRemoveSubscriberIntentRequest,
  admits, add_publisher_intent, add_subscriber_intent, remove_subscriber_intent,
}
use sommelier.PubSub.Messages.Effects.{
  add_publisher_intent_rejects, add_publisher_intent_ok, add_subscriber_intent_rejects,
  add_subscriber_intent_ok, add_subscriber_rejects, add_subscriber_ok,
  remove_publisher_intent_rejects, remove_publisher_intent_ok, remove_subscriber_intent_rejects,
  remove_subscriber_intent_ok, remove_subscriber_rejects, remove_subscriber_ok,
  remove_publisher_rejects, remove_publisher_ok,
}
use sommelier.PubSub.Handler.{
  Msg, Content, new_handler, new_pubsub_proposal_handler, msg_remove_publisher, msg_add_subscriber,
  msg_remove_subscriber, msg_add_publisher_intent, msg_remove_publisher_intent,
  msg_add_subscriber_intent, msg_remove_subscriber_intent, unrecognized_msg, add_publisher_proposal,
  remove_publisher_proposal, add_default_subscription_proposal,
  remove_default_subscription_proposal, unrecognized_content,
}
use sommelier.PubSub.Proposals.{
  handle_add_publisher, handle_remove_publisher, handle_add_default_subscription,
  handle_remove_default_subscription,
}
use sommelier.PubSub.Linked.{serves, IsLinked}
use sommelier.PubSub.Linked.Deletes.{delete_publisher_intent-IsLinked}
use sommelier.PubSub.Linked.Publishers.{delete_publisher-IsLinked}
use sommelier.PubSub.Linked.Subscribers.{delete_subscriber-IsLinked}
use sommelier.PubSub.Linked.Sets.{
  set_publisher-IsLinked, set_subscriber-IsLinked, set_default_subscription-IsLinked,
  delete_default_subscription-IsLinked, set_publisher_intent-IsLinked,
  set_subscriber_intent-IsLinked,
}
use sommelier.PubSub.Linked.Single.{delete_subscriber_intent-IsLinked}

module _ (accounts : Accounts) (s : State accounts) (h : IsLinked accounts s) where
  -- An offer that admits its signer serves the signer's intent.
  signed_served :
      (signer : accounts.Address) (i : SubscriberIntent) (p : PublisherIntent)
      → accounts.text signer ≡ i.subscriber_address
      → admits accounts p signer ≡ true
      → serves (some p) i ≡ true
  signed_served signer i p owner admitted = rw (← owner) (ground (arith, admitted))

  add_publisher_intent-IsLinked :
      (m : MsgAddPublisherIntentRequest)
      → (add_publisher_intent accounts m s).0 ≡ ok tt
      → IsLinked accounts (add_publisher_intent accounts m s).1
  add_publisher_intent-IsLinked m e =
      let (i, _, known, fresh, after) = add_publisher_intent_ok accounts m s e in
      rw after (set_publisher_intent-IsLinked accounts s h i (ground (arith, known)) fresh)

  add_subscriber_intent-IsLinked :
      (m : MsgAddSubscriberIntentRequest)
      → (add_subscriber_intent accounts m s).0 ≡ ok tt
      → IsLinked accounts (add_subscriber_intent accounts m s).1
  add_subscriber_intent-IsLinked m e =
      let (i, signer, _, o, _, _, owner, fresh, known, offered, _, allowed, after) =
        add_subscriber_intent_ok accounts m s e in
      rw after (
        set_subscriber_intent-IsLinked accounts s h i (ground (arith, known)) fresh
          (rw offered (signed_served signer i o owner allowed)))

  remove_subscriber_intent-IsLinked :
      (m : MsgRemoveSubscriberIntentRequest)
      → (remove_subscriber_intent accounts m s).0 ≡ ok tt
      → IsLinked accounts (remove_subscriber_intent accounts m s).1
  remove_subscriber_intent-IsLinked m e =
      let (i, stored, _, after) = remove_subscriber_intent_ok accounts m s e in
      rw after (
        delete_subscriber_intent-IsLinked accounts s h (decode accounts m.subscriber_address)
          m.subscription_id i stored)

  succeeds-IsLinked :
      (m : Msg)
      → (new_handler accounts m s).0 ≡ ok tt
      → IsLinked accounts (new_handler accounts m s).1
  unfolding new_handler
  succeeds-IsLinked (msg_remove_publisher m) e =
      rw ((remove_publisher_ok accounts m s e).1)
        (delete_publisher-IsLinked accounts m.publisher_domain s h)
  succeeds-IsLinked (msg_add_subscriber m) e =
      let (r, _, _, after) = add_subscriber_ok accounts m s e in
      rw after (set_subscriber-IsLinked accounts s h (decode accounts r.address) r)
  succeeds-IsLinked (msg_remove_subscriber m) e =
      rw ((remove_subscriber_ok accounts m s e).1)
        (delete_subscriber-IsLinked accounts (decode accounts m.subscriber_address) s h)
  succeeds-IsLinked (msg_add_publisher_intent m) e = add_publisher_intent-IsLinked m e
  succeeds-IsLinked (msg_remove_publisher_intent m) e =
      rw ((remove_publisher_intent_ok accounts m s e).1)
        (delete_publisher_intent-IsLinked accounts m.subscription_id m.publisher_domain s h)
  succeeds-IsLinked (msg_add_subscriber_intent m) e = add_subscriber_intent-IsLinked m e
  succeeds-IsLinked (msg_remove_subscriber_intent m) e = remove_subscriber_intent-IsLinked m e
  succeeds-IsLinked unrecognized_msg e = cc

module _ (accounts : Accounts) where
  -- A message whose handler does not succeed leaves the store of x/pubsub as it was.
  pub new_handler_rejects :
      (m : Msg) (s : State accounts)
      → (new_handler accounts m s).0 ≢ ok tt
      → (new_handler accounts m s).1 ≡ s
  unfolding new_handler
  new_handler_rejects (msg_remove_publisher m) s n = remove_publisher_rejects accounts m s n
  new_handler_rejects (msg_add_subscriber m) s n = add_subscriber_rejects accounts m s n
  new_handler_rejects (msg_remove_subscriber m) s n = remove_subscriber_rejects accounts m s n
  new_handler_rejects (msg_add_publisher_intent m) s n = add_publisher_intent_rejects accounts m s n
  new_handler_rejects (msg_remove_publisher_intent m) s n =
      remove_publisher_intent_rejects accounts m s n
  new_handler_rejects (msg_add_subscriber_intent m) s n =
      add_subscriber_intent_rejects accounts m s n
  new_handler_rejects (msg_remove_subscriber_intent m) s n =
      remove_subscriber_intent_rejects accounts m s n
  new_handler_rejects unrecognized_msg s n = refl

  pub new_handler-IsLinked :
      (m : Msg) (s : State accounts)
      → IsLinked accounts s
      → IsLinked accounts (new_handler accounts m s).1
  new_handler-IsLinked m s h = elim (Outcome-cases (new_handler accounts m s).0) [
    | inl e ↦ succeeds-IsLinked accounts s h m e
    | inr n ↦ rw (new_handler_rejects m s n) h
  ]

  pub new_pubsub_proposal_handler-IsLinked :
      (c : Content) (s : State accounts)
      → IsLinked accounts s
      → IsLinked accounts (new_pubsub_proposal_handler accounts c s).1
  unfolding new_pubsub_proposal_handler handle_add_publisher handle_remove_publisher
      handle_add_default_subscription handle_remove_default_subscription
  new_pubsub_proposal_handler-IsLinked (add_publisher_proposal p) s h =
      if_kept (IsLinked accounts) (is_some (get_publisher accounts p.domain s)) already_exists s
        (set_publisher accounts
          (record { address = p.address; ca_cert = p.ca_cert; domain = p.domain }))
        h
        (set_publisher-IsLinked accounts s h
          (record { address = p.address; ca_cert = p.ca_cert; domain = p.domain }))
  new_pubsub_proposal_handler-IsLinked (remove_publisher_proposal d) s h =
      if_kept (IsLinked accounts) (not (is_some (get_publisher accounts d s))) not_found s
        (delete_publisher accounts d) h (delete_publisher-IsLinked accounts d s h)
  new_pubsub_proposal_handler-IsLinked (add_default_subscription_proposal x) s h =
      set_default_subscription-IsLinked accounts s h x
  new_pubsub_proposal_handler-IsLinked (remove_default_subscription_proposal u) s h =
      if_kept (IsLinked accounts) (not (is_some (get_default_subscription accounts u s))) not_found
        s (delete_default_subscription accounts u) h
        (delete_default_subscription-IsLinked accounts s h u)
  new_pubsub_proposal_handler-IsLinked unrecognized_content s h = h

  -- A message or a proposal takes a store to the next.
  pub data Step : State accounts → State accounts → Type 0 where
    message : (m : Msg) (s : State accounts) → Step s (new_handler accounts m s).1
    proposal :
        (c : Content) (s : State accounts) → Step s (new_pubsub_proposal_handler accounts c s).1

  pub data Reach (s : State accounts) : State accounts → Type 0 where
    start : Reach s s
    step : {t u : State accounts} → Reach s t → Step t u → Reach s u

  Step-IsLinked : {s t : State accounts} → Step s t → IsLinked accounts s → IsLinked accounts t
  Step-IsLinked (message m s) h = new_handler-IsLinked m s h
  Step-IsLinked (proposal c s) h = new_pubsub_proposal_handler-IsLinked c s h

  -- Every store that messages and proposals reach from a linked one is linked: the indices agree, and
  -- no intent outlives its publisher, its subscriber or the offer that it stands on.
  pub Reach-IsLinked :
      {s t : State accounts} → IsLinked accounts s → Reach s t → IsLinked accounts t
  Reach-IsLinked h start = h
  Reach-IsLinked h (step r st) = Step-IsLinked st (Reach-IsLinked h r)
