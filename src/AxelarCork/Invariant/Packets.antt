-- ===== src/AxelarCork/Invariant/Packets.antt =====
-- What the packets and the ends of blocks of x/axelarcork keep.
use sommelier.Base.{ℕ, ◌≡◌, refl, String, List, Option-cases, inl, inr}
use sommelier.Base.Exec.{for_each, for_each-Keeps}
use sommelier.Base.Keeping.{Keeps, keeping, modify-Keeps, bind-Keeps, raise-Keeps, gets-Keeps}
use sommelier.Base.Table.{set-Entries, delete-Entries}
use sommelier.Base.Table.Ordered.{KeyLaws, set-Ordered, delete-Ordered}
use sommelier.Base.Word.{sub_u64}
use sommelier.Sdk.{Sdk}
use sommelier.AxelarCork.Types.{
  AxelarCork, ChainConfiguration, Chains, State, winning_key, contract_of, set_winning_axelar_cork,
  delete_winning_axelar_cork_by_blockheight,
}
use sommelier.AxelarCork.Tally.{winning_for, end_chain, end_blocker}
use sommelier.AxelarCork.Packet.{
  LogicCall, decode_logic_call_args, decode_upgrade_args, check_logic_call, check_upgrade,
  check_payload, check_memo, check_packet, validate_axelar_packet,
}
use sommelier.AxelarCork.Tally.Winning.{
  store_winning-Keeps, expire_winning-Keeps, get_approved-Keeps,
}
use sommelier.AxelarCork.Invariant.{elsewhere, delete_upgrade-IsFiled}
use sommelier.AxelarCork.Handler.Replay.{IsFiled}

module _ ⦃sdk : Sdk⦄ (b : Chains sdk.Decimal)
    (laws : KeyLaws (ℕ × (ℕ × b.Address)) ⦃key = winning_key b⦄) where
  set_winning-IsFiled :
      (chain height : ℕ) (c : AxelarCork) (s : State b)
      → IsFiled b s
      → IsFiled b (set_winning_axelar_cork b chain height c s)
  set_winning-IsFiled chain height c s f = record {
    keyed =
        set-Entries ⦃key = winning_key b⦄ (λ k v. k.1.1 ≡ contract_of b v)
          (chain, (height, contract_of b c)) c s.winning refl f.keyed;
    winning_ordered =
        set-Ordered ⦃key = winning_key b⦄ laws (chain, (height, contract_of b c)) c s.winning
          f.winning_ordered;
    upgrades_ordered = f.upgrades_ordered;
  }

  delete_winning-IsFiled :
      (chain height : ℕ) (c : AxelarCork) (s : State b)
      → IsFiled b s
      → IsFiled b (delete_winning_axelar_cork_by_blockheight b chain height c s)
  delete_winning-IsFiled chain height c s f = record {
    keyed =
        delete-Entries ⦃key = winning_key b⦄ (λ k v. k.1.1 ≡ contract_of b v)
          (chain, (height, contract_of b c)) s.winning f.keyed;
    winning_ordered =
        delete-Ordered ⦃key = winning_key b⦄ laws (chain, (height, contract_of b c)) s.winning
          f.winning_ordered;
    upgrades_ordered = f.upgrades_ordered;
  }

  check_logic_call-IsFiled :
      (g : ChainConfiguration) (call : LogicCall) → Keeps (IsFiled b) (check_logic_call b g call)
  unfolding check_logic_call
  check_logic_call-IsFiled g call = search (keeping, modify-Keeps, delete_winning-IsFiled) depth 40

  check_upgrade-IsFiled :
      (g : ChainConfiguration) (payload proxy : String) (targets : List String)
      → Keeps (IsFiled b) (check_upgrade b g payload proxy targets)
  unfolding check_upgrade
  check_upgrade-IsFiled g payload proxy targets =
      search (keeping, modify-Keeps, delete_upgrade-IsFiled b) depth 40

  check_payload-IsFiled :
      (g : ChainConfiguration) (payload : String) → Keeps (IsFiled b) (check_payload b g payload)
  unfolding check_payload
  check_payload-IsFiled g payload = elim (Option-cases (decode_logic_call_args b payload)) [
    | inr (call, e) ↦ rw (e, check_payload) (check_logic_call-IsFiled g call)
    | inl e ↦ elim (Option-cases (decode_upgrade_args b payload)) [
      | inr ((proxy, targets), u) ↦
          rw (e, u, check_payload) (check_upgrade-IsFiled g payload proxy targets)
      | inl u ↦ rw (e, u, check_payload) (raise-Keeps _)
    ]
  ]

  check_memo-IsFiled : (memo : String) → Keeps (IsFiled b) (check_memo b memo)
  unfolding check_memo
  check_memo-IsFiled memo = search (keeping, check_payload-IsFiled) depth 40

  pub validate_axelar_packet-IsFiled :
      (channel bytes : String) → Keeps (IsFiled b) (validate_axelar_packet b channel bytes)
  unfolding validate_axelar_packet check_packet
  validate_axelar_packet-IsFiled channel bytes = search (keeping, check_memo-IsFiled) depth 40

  end_chain-IsFiled :
      (height : ℕ) (g : ChainConfiguration) → Keeps (IsFiled b) (end_chain b height g)
  unfolding end_chain
  end_chain-IsFiled height g =
      bind-Keeps _ _
        (record {
          at =
              get_approved-Keeps b (IsFiled b) (λ t s. elsewhere b s _ refl refl)
                (λ t s. elsewhere b s _ refl refl) height g.id;
        })
        (λ winners.
          bind-Keeps _ _
            (modify-Keeps _ (
              store_winning-Keeps b (IsFiled b) g.id height (set_winning-IsFiled g.id height)
                winners))
            (λ _. modify-Keeps _ (λ s.
              expire_winning-Keeps b (IsFiled b) g.id (sub_u64 height s.params.cork_timeout_blocks)
                (delete_winning-IsFiled g.id) (winning_for g.id s.winning) s)))

  pub end_blocker-IsFiled : (height : ℕ) → Keeps (IsFiled b) (end_blocker b height)
  unfolding end_blocker
  end_blocker-IsFiled height = bind-Keeps _ (for_each (end_chain b height)) (gets-Keeps _) (λ gs.
      record {
        at =
            for_each-Keeps (IsFiled b) (end_chain b height) (λ g. (end_chain-IsFiled height g).at)
              gs;
      })
