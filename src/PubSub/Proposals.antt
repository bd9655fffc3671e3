-- ===== src/PubSub/Proposals.antt =====
-- The governance proposals: x/pubsub/keeper/proposal_handler.go.
use sommelier.Base.{String, not}
use sommelier.Base.Exec.{wrapped, ◌>>=◌, ◌>>◌, gets, raise_if, modify}
use sommelier.Base.Table.Prefix.{is_some}
use sommelier.PubSub.Types.{Accounts, DefaultSubscription, already_exists, not_found}
use sommelier.PubSub.Store.{
  get_publisher, set_publisher, delete_publisher, get_default_subscription,
  set_default_subscription, delete_default_subscription,
}
use sommelier.PubSub.Messages.{Action}

pub record AddPublisherProposal : Type 0 where
  pub domain : String
  pub address : String
  pub proof_url : String
  pub ca_cert : String

module _ (accounts : Accounts) where
  unfoldable pub handle_add_publisher : AddPublisherProposal → Action accounts Unit
  handle_add_publisher p = do
    known ← gets (get_publisher accounts p.domain)
    raise_if (is_some known) (wrapped already_exists)
    modify (
        set_publisher accounts
          (record { address = p.address; ca_cert = p.ca_cert; domain = p.domain }))

  unfoldable pub handle_remove_publisher : String → Action accounts Unit
  handle_remove_publisher domain = do
    known ← gets (get_publisher accounts domain)
    raise_if (not (is_some known)) (wrapped not_found)
    modify (delete_publisher accounts domain)

  unfoldable pub handle_add_default_subscription : DefaultSubscription → Action accounts Unit
  handle_add_default_subscription d = modify (set_default_subscription accounts d)

  unfoldable pub handle_remove_default_subscription : String → Action accounts Unit
  handle_remove_default_subscription id = do
    known ← gets (get_default_subscription accounts id)
    raise_if (not (is_some known)) (wrapped not_found)
    modify (delete_default_subscription accounts id)
