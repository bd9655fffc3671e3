-- ===== src/AxelarCork/Invariant/Handling.antt =====
-- What the messages and proposals of x/axelarcork keep of its store.
use sommelier.Base.{ℕ, refl, String, List, none, some}
use sommelier.Base.Int.{pos}
use sommelier.Base.Check.{Checked, ensure}
use sommelier.Base.Keeping.{Keeps, keeping, modify-Keeps, bind-Keeps, raise-Keeps, pure-Keeps}
use sommelier.Sdk.{Sdk, Coin}
use sommelier.PubSub.Types.{Accounts, PubSub}
use sommelier.AxelarCork.Types.{Chains, State, Error, delete_axelar_proxy_upgrade_data}
use sommelier.AxelarCork.Tally.{Action}
use sommelier.AxelarCork.Relay.{
  Ibc, Relayed, Sends, MsgTransfer, MsgRelayAxelarCorkRequest, MsgRelayAxelarProxyUpgradeRequest,
  MsgBumpAxelarCorkGasRequest, relay_cork, relay_proxy_upgrade, bump_cork_gas, pay_module,
  next_nonce,
}
use sommelier.AxelarCork.Validate.{AxelarReaders}
use sommelier.AxelarCork.Validate.Requests.{AxelarCommunityPoolSpendProposal}
use sommelier.AxelarCork.Cellars.{
  Managing, Manages, AddAxelarManagedCellarIdsProposal, RemoveAxelarManagedCellarIdsProposal,
  handle_add_managed_cellars, handle_remove_managed_cellars, write_added, write_removed,
}
use sommelier.AxelarCork.Spend.{Pool, spend_community_pool}
use sommelier.AxelarCork.Handler.{
  Msg, msg_schedule, msg_relay, msg_relay_upgrade, msg_bump_gas, unrecognized_msg, Content,
  add_managed_cellars_proposal, remove_managed_cellars_proposal, scheduled_cork_proposal,
  community_pool_spend_proposal, add_chain_configuration_proposal,
  remove_chain_configuration_proposal, upgrade_proxy_proposal, cancel_upgrade_proposal,
  unrecognized_content, Tools, Whole, on_store, on_ledger, on_pubsub, new_handler,
  new_proposal_handler,
}
use sommelier.AxelarCork.Handler.Replay.{IsFiled}
use sommelier.AxelarCork.Invariant.{
  elsewhere, delete_upgrade-IsFiled, schedule_axelar_cork-IsFiled,
  handle_scheduled_axelar_cork-IsFiled, handle_add_chain_configuration-IsFiled,
  handle_remove_chain_configuration-IsFiled, handle_upgrade-IsFiled, handle_cancel_upgrade-IsFiled,
}

-- The transfers keep the store filed, as they do where they pass through the middleware.
module _ ⦃sdk : Sdk⦄ (b : Chains sdk.Decimal) (ibc : Ibc b) where
  abbrev pub TransferKeeps : Type 0
  TransferKeeps = (t : MsgTransfer) → Keeps (λ w. IsFiled b w.store) (ibc.transfer t)

  abbrev Filed : Relayed (State b) ibc.Ledger → Type 0
  Filed w = IsFiled b w.store

module _ ⦃sdk : Sdk⦄ (b : Chains sdk.Decimal) (ibc : Ibc b) (transfers : TransferKeeps b ibc) where
  pay_module-Filed :
      (signer : String) (token : Coin) → Keeps (Filed b ibc) (pay_module b ibc signer token)
  pay_module-Filed signer token = record { at = λ w f. f }

  next_nonce-Filed :
      (chain : ℕ) (address : String) → Keeps (Filed b ibc) (next_nonce b ibc chain address)
  next_nonce-Filed chain address = record { at = λ w. elsewhere b w.store _ refl refl }

  relay_cork-Filed : (m : MsgRelayAxelarCorkRequest) → Keeps (Filed b ibc) (relay_cork b ibc m)
  unfolding relay_cork
  relay_cork-Filed m = search (keeping, pay_module-Filed, next_nonce-Filed, transfers) depth 60

  drop_upgrade-Filed :
      (chain : ℕ) (w : Relayed (State b) ibc.Ledger)
      → Filed b ibc w
      → Filed b ibc (record w { store = delete_axelar_proxy_upgrade_data b chain w.store })
  drop_upgrade-Filed chain w = delete_upgrade-IsFiled b chain w.store

  relay_proxy_upgrade-Filed :
      (height : ℕ) (m : MsgRelayAxelarProxyUpgradeRequest)
      → Keeps (Filed b ibc) (relay_proxy_upgrade b ibc (pos height) m)
  unfolding relay_proxy_upgrade
  relay_proxy_upgrade-Filed height m =
      search (keeping, pay_module-Filed, transfers, modify-Keeps, drop_upgrade-Filed) depth 60

  bump_cork_gas-Filed :
      (m : MsgBumpAxelarCorkGasRequest) → Keeps (Filed b ibc) (bump_cork_gas b ibc m)
  unfolding bump_cork_gas
  bump_cork_gas-Filed m = search (keeping, transfers) depth 60

module _ ⦃sdk : Sdk⦄ (b : Chains sdk.Decimal) (r : AxelarReaders) (accounts : Accounts)
    (ibc : Ibc b) (pool : Pool b ibc) (tools : Tools) (transfers : TransferKeeps b ibc) where
  spend_community_pool-Filed :
      (p : AxelarCommunityPoolSpendProposal)
      → Keeps (Filed b ibc) (spend_community_pool b ibc pool p)
  unfolding spend_community_pool
  spend_community_pool-Filed p = search (keeping, transfers, modify-Keeps, kept) depth 60
    where
      kept :
          (f : ibc.Ledger → ibc.Ledger) (w : Relayed (State b) ibc.Ledger)
          → Filed b ibc w
          → Filed b ibc (record w { ledger = f w.ledger })
      kept f w h = h

  -- The module's store is filed.
  abbrev pub AllFiled : Whole b r accounts ibc pool tools → Type 0
  AllFiled w = IsFiled b w.store

  pub on_store-AllFiled :
      {A : Type 0} (m : Action b A)
      → Keeps (IsFiled b) m
      → Keeps AllFiled (on_store b r accounts ibc pool tools m)
  on_store-AllFiled m k = record { at = λ w. k.at w.store }

  on_ledger-AllFiled :
      {A : Type 0} (m : Sends b ibc A)
      → Keeps (Filed b ibc) m
      → Keeps AllFiled (on_ledger b r accounts ibc pool tools m)
  on_ledger-AllFiled m k = record { at = λ w. k.at (record { store = w.store; ledger = w.ledger }) }

  on_pubsub-AllFiled :
      {A : Type 0} (m : Manages b r accounts tools.decimal tools.sort_texts A)
      → Keeps (λ w. IsFiled b w.store) m
      → Keeps AllFiled (on_pubsub b r accounts ibc pool tools m)
  on_pubsub-AllFiled m k = record { at = λ w. k.at (record { store = w.store; pubsub = w.pubsub }) }

  abbrev Stored : Managing (State b) (PubSub accounts.Address) → Type 0
  Stored w = IsFiled b w.store

  ensure-Stored : (c : Checked Error) → Keeps Stored (ensure c)
  ensure-Stored none = record { at = λ w h. h }
  ensure-Stored (some e) = record { at = λ w h. h }

  write_added-Stored :
      (id : ℕ) (p : AddAxelarManagedCellarIdsProposal) (ids : List String)
      (w : Managing (State b) (PubSub accounts.Address))
      → Stored w
      → Stored (write_added b r accounts tools.decimal tools.sort_texts id p ids w)
  write_added-Stored id p ids w = elsewhere b w.store _ refl refl

  add_managed_cellars-Stored :
      (p : AddAxelarManagedCellarIdsProposal)
      → Keeps Stored (handle_add_managed_cellars b r accounts tools.decimal tools.sort_texts p)
  unfolding handle_add_managed_cellars
  add_managed_cellars-Stored p =
      search (keeping, ensure-Stored, modify-Keeps, write_added-Stored) depth 60

  write_removed-Stored :
      (id chain : ℕ) (ids : List String) (w : Managing (State b) (PubSub accounts.Address))
      → Stored w
      → Stored (write_removed b r accounts tools.decimal tools.sort_texts id chain ids w)
  write_removed-Stored id chain ids w = elsewhere b w.store _ refl refl

  remove_managed_cellars-Stored :
      (p : RemoveAxelarManagedCellarIdsProposal)
      → Keeps Stored (handle_remove_managed_cellars b r accounts tools.decimal tools.sort_texts p)
  unfolding handle_remove_managed_cellars
  remove_managed_cellars-Stored p =
      search (keeping, ensure-Stored, modify-Keeps, write_removed-Stored) depth 60

  pub new_handler-AllFiled :
      (height : ℕ) (m : Msg) → Keeps AllFiled (new_handler b r accounts ibc pool tools height m)
  unfolding new_handler
  new_handler-AllFiled height (msg_schedule m) =
      bind-Keeps _ _ (on_store-AllFiled _ (schedule_axelar_cork-IsFiled b height m))
        (λ _. pure-Keeps tt)
  new_handler-AllFiled height (msg_relay m) =
      on_ledger-AllFiled _ (relay_cork-Filed b ibc transfers m)
  new_handler-AllFiled height (msg_relay_upgrade m) =
      on_ledger-AllFiled _ (relay_proxy_upgrade-Filed b ibc transfers height m)
  new_handler-AllFiled height (msg_bump_gas m) =
      on_ledger-AllFiled _ (bump_cork_gas-Filed b ibc transfers m)
  new_handler-AllFiled height unrecognized_msg = raise-Keeps _

  pub new_proposal_handler-AllFiled :
      (height : ℕ) (c : Content)
      → Keeps AllFiled (new_proposal_handler b r accounts ibc pool tools height c)
  unfolding new_proposal_handler
  new_proposal_handler-AllFiled height (add_managed_cellars_proposal p) =
      on_pubsub-AllFiled _ (add_managed_cellars-Stored p)
  new_proposal_handler-AllFiled height (remove_managed_cellars_proposal p) =
      on_pubsub-AllFiled _ (remove_managed_cellars-Stored p)
  new_proposal_handler-AllFiled height (scheduled_cork_proposal p) =
      on_store-AllFiled _
        (handle_scheduled_axelar_cork-IsFiled b p.chain_id p.target_contract_address)
  new_proposal_handler-AllFiled height (community_pool_spend_proposal p) =
      on_ledger-AllFiled _ (spend_community_pool-Filed p)
  new_proposal_handler-AllFiled height (add_chain_configuration_proposal g) =
      on_store-AllFiled _ (handle_add_chain_configuration-IsFiled b g)
  new_proposal_handler-AllFiled height (remove_chain_configuration_proposal chain) =
      on_store-AllFiled _ (handle_remove_chain_configuration-IsFiled b chain)
  new_proposal_handler-AllFiled height (upgrade_proxy_proposal chain proxy) =
      on_store-AllFiled _ (handle_upgrade-IsFiled b tools.encode_upgrade_args height chain proxy)
  new_proposal_handler-AllFiled height (cancel_upgrade_proposal chain) =
      on_store-AllFiled _ (handle_cancel_upgrade-IsFiled b chain)
  new_proposal_handler-AllFiled height unrecognized_content = raise-Keeps _
