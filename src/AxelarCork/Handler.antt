-- ===== src/AxelarCork/Handler.antt =====
-- The entries into x/axelarcork: its messages and proposals (x/axelarcork/handler.go), and the packets that
-- pass its middleware (x/axelarcork/ibc_middleware.go).
pub mod Replay
use sommelier.Base.{ℕ, String, Option, List}
use sommelier.Base.Int.{ℤ, pos}
use sommelier.Base.Exec.{Exec, Outcome, ok, err, panic, foreign, ◌>>=◌, ◌>>◌, pure, raise}
use sommelier.Sdk.{Sdk}
use sommelier.PubSub.Types.{Accounts, PubSub}
use sommelier.AxelarCork.Types.{ChainConfiguration, Chains, State, Error}
use sommelier.AxelarCork.Tally.{Action}
use sommelier.AxelarCork.Messages.{
  MsgScheduleAxelarCorkRequest, schedule_axelar_cork, handle_scheduled_axelar_cork,
  handle_add_chain_configuration, handle_remove_chain_configuration,
  handle_upgrade_axelar_proxy_contract, handle_cancel_axelar_proxy_contract_upgrade,
}
use sommelier.AxelarCork.Packet.{validate_axelar_packet}
use sommelier.AxelarCork.Relay.{
  Ibc, Relayed, Sends, MsgRelayAxelarCorkRequest, MsgRelayAxelarProxyUpgradeRequest,
  MsgBumpAxelarCorkGasRequest, relay_cork, relay_proxy_upgrade, bump_cork_gas,
}
use sommelier.AxelarCork.Validate.{AxelarReaders}
use sommelier.AxelarCork.Validate.Requests.{
  AxelarScheduledCorkProposal, AxelarCommunityPoolSpendProposal,
}
use sommelier.AxelarCork.Cellars.{
  Managing, Manages, AddAxelarManagedCellarIdsProposal, RemoveAxelarManagedCellarIdsProposal,
  handle_add_managed_cellars, handle_remove_managed_cellars,
}
use sommelier.AxelarCork.Spend.{Pool, spend_community_pool}

-- The messages that the handler knows, and any other.
pub data Msg : Type 0 where
  msg_schedule : MsgScheduleAxelarCorkRequest → Msg
  msg_relay : MsgRelayAxelarCorkRequest → Msg
  msg_relay_upgrade : MsgRelayAxelarProxyUpgradeRequest → Msg
  msg_bump_gas : MsgBumpAxelarCorkGasRequest → Msg
  unrecognized_msg : Msg

-- The proposals' contents, without the titles and descriptions.
pub data Content : Type 0 where
  add_managed_cellars_proposal : AddAxelarManagedCellarIdsProposal → Content
  remove_managed_cellars_proposal : RemoveAxelarManagedCellarIdsProposal → Content
  scheduled_cork_proposal : AxelarScheduledCorkProposal → Content
  community_pool_spend_proposal : AxelarCommunityPoolSpendProposal → Content
  add_chain_configuration_proposal : ChainConfiguration → Content
  remove_chain_configuration_proposal : ℕ → Content
  upgrade_proxy_proposal : ℕ → String → Content
  cancel_upgrade_proposal : ℕ → Content
  unrecognized_content : Content

-- The module's store, that of x/pubsub, and the states of the modules outside the repository.
pub record Everything (Store Subscriptions Ledger : Type 0) : Type 0 where
  pub store : Store
  pub pubsub : Subscriptions
  pub ledger : Ledger

-- What the proposals' handlers take from the SDK and the standard library.
pub record Tools : Type 0 where
  pub decimal : ℕ → String
  pub sort_texts : List String → List String
  pub encode_upgrade_args : String → List String → Option String

module _ ⦃sdk : Sdk⦄ (b : Chains sdk.Decimal) (r : AxelarReaders) (accounts : Accounts)
    (ibc : Ibc b) (pool : Pool b ibc) (tools : Tools) where
  abbrev pub Whole : Type 0
  Whole = Everything (State b) (PubSub accounts.Address) ibc.Ledger

  abbrev pub Handles : Type 0 → Type 0
  Handles A = Exec Whole Error A

  -- A method that reads and writes a part of the whole.
  abbrev pub on_store : {A : Type 0} → Action b A → Handles A
  on_store m w = let (a, s) = m w.store in (a, record w { store = s })

  abbrev pub on_ledger : {A : Type 0} → Sends b ibc A → Handles A
  on_ledger m w =
      let (a, v) = m (record { store = w.store; ledger = w.ledger }) in
      (a, record w { store = v.store; ledger = v.ledger })

  abbrev pub on_pubsub :
      {A : Type 0} → Manages b r accounts tools.decimal tools.sort_texts A → Handles A
  on_pubsub m w =
      let (a, v) = m (record { store = w.store; pubsub = w.pubsub }) in
      (a, record w { store = v.store; pubsub = v.pubsub })

  -- `NewHandler`, without the results of the messages
  unfoldable pub new_handler : ℕ → Msg → Handles (Unit {0})
  new_handler height (msg_schedule m) = on_store (schedule_axelar_cork b height m) >>= λ _. pure tt
  new_handler height (msg_relay m) = on_ledger (relay_cork b ibc m)
  new_handler height (msg_relay_upgrade m) = on_ledger (relay_proxy_upgrade b ibc (pos height) m)
  new_handler height (msg_bump_gas m) = on_ledger (bump_cork_gas b ibc m)
  new_handler height unrecognized_msg = raise foreign

  -- `NewProposalHandler`
  unfoldable pub new_proposal_handler : ℕ → Content → Handles (Unit {0})
  new_proposal_handler height (add_managed_cellars_proposal p) =
      on_pubsub (handle_add_managed_cellars b r accounts tools.decimal tools.sort_texts p)
  new_proposal_handler height (remove_managed_cellars_proposal p) =
      on_pubsub (handle_remove_managed_cellars b r accounts tools.decimal tools.sort_texts p)
  new_proposal_handler height (scheduled_cork_proposal p) =
      on_store (handle_scheduled_axelar_cork b p.chain_id p.target_contract_address)
  new_proposal_handler height (community_pool_spend_proposal p) =
      on_ledger (spend_community_pool b ibc pool p)
  new_proposal_handler height (add_chain_configuration_proposal g) =
      on_store (handle_add_chain_configuration b g)
  new_proposal_handler height (remove_chain_configuration_proposal chain) =
      on_store (handle_remove_chain_configuration b chain)
  new_proposal_handler height (upgrade_proxy_proposal chain proxy) =
      on_store (handle_upgrade_axelar_proxy_contract b tools.encode_upgrade_args height chain proxy)
  new_proposal_handler height (cancel_upgrade_proposal chain) =
      on_store (handle_cancel_axelar_proxy_contract_upgrade b chain)
  new_proposal_handler height unrecognized_content = raise foreign

  -- `SendPacket` of the middleware; `ics4_send` is that of the layer below, which answers a sequence.
  unfoldable pub send_packet : (String → String → Handles ℕ) → String → String → Handles ℕ
  unfolding validate_axelar_packet
  send_packet ics4_send channel bytes = do
    on_store (validate_axelar_packet b channel bytes)
    ics4_send channel bytes
