-- ===== src/AxelarCork/Invariant/Chain.antt =====
-- The steps of x/axelarcork, by messages, proposals, packets and the ends of blocks, and what holds of
-- every store that they reach.
use sommelier.Base.{ℕ, suc, ◌≡◌, refl, String}
use sommelier.Base.Exec.{ok}
use sommelier.Base.Table.Ordered.{KeyLaws}
use sommelier.Sdk.{Sdk}
use sommelier.PubSub.Types.{Accounts, PubSub}
use sommelier.AxelarCork.Types.{Chains, Params, winning_key, set_params}
use sommelier.AxelarCork.Tally.{end_blocker}
use sommelier.AxelarCork.Packet.{validate_axelar_packet}
use sommelier.AxelarCork.Relay.{Ibc}
use sommelier.AxelarCork.Validate.{AxelarReaders}
use sommelier.AxelarCork.Spend.{Pool}
use sommelier.AxelarCork.Handler.{Msg, Content, Tools, Whole, new_handler, new_proposal_handler}
use sommelier.AxelarCork.Handler.Replay.{IsFiled}
use sommelier.AxelarCork.Invariant.{elsewhere}
use sommelier.AxelarCork.Invariant.Packets.{validate_axelar_packet-IsFiled, end_blocker-IsFiled}
use sommelier.AxelarCork.Invariant.Handling.{
  TransferKeeps, new_handler-AllFiled, new_proposal_handler-AllFiled,
}

module _ ⦃sdk : Sdk⦄ (b : Chains sdk.Decimal) (r : AxelarReaders) (accounts : Accounts)
    (ibc : Ibc b) (pool : Pool b ibc) (tools : Tools) where
  -- A message, a proposal, new parameters, a packet that the middleware checks, the end of a block, after
  -- which the height is one higher, or what the other modules do with their states.
  pub data Step
      : ℕ → Whole b r accounts ibc pool tools → ℕ → Whole b r accounts ibc pool tools → Type 0 where
    handles :
        (h : ℕ) (w : Whole b r accounts ibc pool tools) (m : Msg)
        → Step h w h (new_handler b r accounts ibc pool tools h m w).1
    proposes :
        (h : ℕ) (w : Whole b r accounts ibc pool tools) (c : Content)
        → Step h w h (new_proposal_handler b r accounts ibc pool tools h c w).1
    sets_params :
        (h : ℕ) (w : Whole b r accounts ibc pool tools) (p : Params)
        → Step h w h (record w { store = set_params b p w.store })
    checks :
        (h : ℕ) (w : Whole b r accounts ibc pool tools) (channel bytes : String)
        → Step h w h (record w { store = (validate_axelar_packet b channel bytes w.store).1 })
    ends_block :
        (h : ℕ) (w : Whole b r accounts ibc pool tools)
        → (end_blocker b h w.store).0 ≡ ok tt
        → Step h w (suc h) (record w { store = (end_blocker b h w.store).1 })
    others :
        (h : ℕ) (w : Whole b r accounts ibc pool tools) (p : PubSub accounts.Address)
        (l : ibc.Ledger)
        → Step h w h (record w { pubsub = p; ledger = l })

  pub data Reach (h : ℕ) (w : Whole b r accounts ibc pool tools)
      : ℕ → Whole b r accounts ibc pool tools → Type 0 where
    here : Reach h w h w
    next :
        {i j : ℕ} {u v : Whole b r accounts ibc pool tools}
        → Reach h w i u
        → Step i u j v
        → Reach h w j v

module _ ⦃sdk : Sdk⦄ (b : Chains sdk.Decimal) (r : AxelarReaders) (accounts : Accounts)
    (ibc : Ibc b) (pool : Pool b ibc) (tools : Tools)
    (laws : KeyLaws (ℕ × (ℕ × b.Address)) ⦃key = winning_key b⦄)
    (transfers : TransferKeeps b ibc) where
  Step-IsFiled :
      {h : ℕ} {w : Whole b r accounts ibc pool tools} {i : ℕ}
      {v : Whole b r accounts ibc pool tools}
      → Step b r accounts ibc pool tools h w i v
      → IsFiled b w.store
      → IsFiled b v.store
  Step-IsFiled (handles h w m) f =
      (new_handler-AllFiled b r accounts ibc pool tools transfers h m).at w f
  Step-IsFiled (proposes h w c) f =
      (new_proposal_handler-AllFiled b r accounts ibc pool tools transfers h c).at w f
  Step-IsFiled (sets_params h w p) f = elsewhere b w.store _ refl refl f
  Step-IsFiled (checks h w channel bytes) f =
      (validate_axelar_packet-IsFiled b laws channel bytes).at w.store f
  Step-IsFiled (ends_block h w e) f = (end_blocker-IsFiled b laws h).at w.store f
  Step-IsFiled (others h w p l) f = f

  -- If the order of the winning corks' keys is strict and total and the transfers of the transfer keeper
  -- keep what follows, then every store of x/axelarcork that messages, proposals, new parameters, checked
  -- packets and the ends of blocks reach has it if the first store has: each winning cork stands under its
  -- contract, and the keys of the winning corks and of the upgrades ascend.
  pub Reach-IsFiled :
      {h : ℕ} {w : Whole b r accounts ibc pool tools} {i : ℕ}
      {v : Whole b r accounts ibc pool tools}
      → IsFiled b w.store
      → Reach b r accounts ibc pool tools h w i v
      → IsFiled b v.store
  Reach-IsFiled f here = f
  Reach-IsFiled f (next run step) = Step-IsFiled step (Reach-IsFiled f run)
