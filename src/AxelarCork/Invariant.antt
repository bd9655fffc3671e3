-- ===== src/AxelarCork/Invariant.antt =====
-- What every operation of x/axelarcork keeps: the winning corks stand under their contracts, and the keys
-- of the winning corks and of the upgrades ascend.
pub mod Packets
pub mod Handling
pub mod Chain
use sommelier.Base.{ℕ, ◌≡◌, refl, String, Option, none, some, List, [], ◌∷◌}
use sommelier.Base.Keeping.{Keeps, keeping, modify-Keeps}
use sommelier.Base.Table
use sommelier.Base.Table.{Table, set-Entries, delete-Entries}
use sommelier.Base.Table.Ordered.{KeyLaws, Ordered, set-Ordered, delete-Ordered}
use sommelier.Base.Table.Pair.{number}
use sommelier.Base.Table.Size.{number-KeyLaws}
use sommelier.Sdk.{Sdk}
use sommelier.AxelarCork.Types.{
  AxelarCork, AxelarUpgradeData, ChainConfiguration, Chains, State, winning_key, contract_of,
  set_winning_axelar_cork, delete_winning_axelar_cork_by_blockheight, set_axelar_proxy_upgrade_data,
  delete_axelar_proxy_upgrade_data, set_scheduled_axelar_cork,
}
use sommelier.AxelarCork.Messages.{
  MsgScheduleAxelarCorkRequest, schedule_axelar_cork, handle_scheduled_axelar_cork,
  handle_add_chain_configuration, handle_remove_chain_configuration,
  handle_upgrade_axelar_proxy_contract, handle_cancel_axelar_proxy_contract_upgrade,
}
use sommelier.AxelarCork.Tally.{end_chain, end_blocker}
use sommelier.AxelarCork.Packet.{
  LogicCall, check_logic_call, check_upgrade, check_payload, check_memo, check_packet,
  validate_axelar_packet,
}
use sommelier.AxelarCork.Handler.Replay.{IsFiled}

module _ ⦃sdk : Sdk⦄ (b : Chains sdk.Decimal) where
  -- A change of the other tables.
  pub elsewhere :
      (s t : State b) → s.winning ≡ t.winning → s.upgrades ≡ t.upgrades → IsFiled b s → IsFiled b t
  elsewhere s t w u f = record {
    keyed = rw (← w) f.keyed;
    winning_ordered = rw (← w) f.winning_ordered;
    upgrades_ordered = rw (← u) f.upgrades_ordered;
  }

  set_scheduled-IsFiled :
      (chain height : ℕ) (val : String) (c : AxelarCork) (s : State b)
      → IsFiled b s
      → IsFiled b (set_scheduled_axelar_cork b chain height val c s)
  set_scheduled-IsFiled chain height val c s = elsewhere s _ refl refl

  pub schedule_axelar_cork-IsFiled :
      (height : ℕ) (m : MsgScheduleAxelarCorkRequest)
      → Keeps (IsFiled b) (schedule_axelar_cork b height m)
  unfolding schedule_axelar_cork
  schedule_axelar_cork-IsFiled height m =
      search (keeping, modify-Keeps, set_scheduled-IsFiled) depth 40

  pub handle_scheduled_axelar_cork-IsFiled :
      (chain : ℕ) (target : String)
      → Keeps (IsFiled b) (handle_scheduled_axelar_cork b chain target)
  unfolding handle_scheduled_axelar_cork
  handle_scheduled_axelar_cork-IsFiled chain target = search keeping depth 40

  pub handle_add_chain_configuration-IsFiled :
      (g : ChainConfiguration) → Keeps (IsFiled b) (handle_add_chain_configuration b g)
  unfolding handle_add_chain_configuration
  handle_add_chain_configuration-IsFiled g = modify-Keeps _ (λ s. elsewhere s _ refl refl)

  pub handle_remove_chain_configuration-IsFiled :
      (chain : ℕ) → Keeps (IsFiled b) (handle_remove_chain_configuration b chain)
  unfolding handle_remove_chain_configuration
  handle_remove_chain_configuration-IsFiled chain = modify-Keeps _ (λ s. elsewhere s _ refl refl)

  pub set_upgrade-IsFiled :
      (chain : ℕ) (u : AxelarUpgradeData) (s : State b)
      → IsFiled b s
      → IsFiled b (set_axelar_proxy_upgrade_data b chain u s)
  set_upgrade-IsFiled chain u s f = record {
    keyed = f.keyed;
    winning_ordered = f.winning_ordered;
    upgrades_ordered =
        set-Ordered ⦃key = number⦄ number-KeyLaws chain u s.upgrades f.upgrades_ordered;
  }

  pub delete_upgrade-IsFiled :
      (chain : ℕ) (s : State b)
      → IsFiled b s
      → IsFiled b (delete_axelar_proxy_upgrade_data b chain s)
  delete_upgrade-IsFiled chain s f = record {
    keyed = f.keyed;
    winning_ordered = f.winning_ordered;
    upgrades_ordered =
        delete-Ordered ⦃key = number⦄ number-KeyLaws chain s.upgrades f.upgrades_ordered;
  }

  pub handle_upgrade-IsFiled :
      (encode : String → List String → Option String) (height chain : ℕ) (proxy : String)
      → Keeps (IsFiled b) (handle_upgrade_axelar_proxy_contract b encode height chain proxy)
  unfolding handle_upgrade_axelar_proxy_contract
  handle_upgrade-IsFiled encode height chain proxy =
      search (keeping, modify-Keeps, set_upgrade-IsFiled) depth 40

  pub handle_cancel_upgrade-IsFiled :
      (chain : ℕ) → Keeps (IsFiled b) (handle_cancel_axelar_proxy_contract_upgrade b chain)
  unfolding handle_cancel_axelar_proxy_contract_upgrade
  handle_cancel_upgrade-IsFiled chain =
      search (keeping, modify-Keeps, delete_upgrade-IsFiled) depth 40
