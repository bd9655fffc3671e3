-- ===== src/AxelarCork/Handler/Replay.antt =====
-- An approval is used once: every packet that Axelar is to act on takes one from the store.
use sommelier.Base.{
  ℕ, ◌+◌, ◌≤◌, ◌≡◌, String, true, ◌&&◌, some, List, [], ◌∷◌, ◌==◌, nat_eq, string_eq, length, arith,
  inl, inr, Bool-cases,
}
use sommelier.Base.Exec.{ok}
use sommelier.Base.Table
use sommelier.Base.Table.{Table, Entries, delete-Entries}
use sommelier.Base.Table.Ordered.{KeyLaws, Ordered, Ordered-get, delete-Ordered}
use sommelier.Base.Table.Pair.{number}
use sommelier.Base.Table.Size.{length-delete, number-KeyLaws}
use sommelier.Sdk.{Sdk}
use sommelier.AxelarCork.Types.{
  AxelarCork, AxelarUpgradeData, Chains, PacketData, State, winning_key, contract_of, first_winning,
  get_winning_axelar_cork, delete_winning_axelar_cork_by_blockheight, get_axelar_proxy_upgrade_data,
  delete_axelar_proxy_upgrade_data,
}
use sommelier.AxelarCork.Tally.Winning.{IsKeyed}
use sommelier.AxelarCork.Packet.{validate_axelar_packet}
use sommelier.AxelarCork.Packet.Consuming.{Consumes, commands, validate_axelar_packet-Consumes}

module _ ⦃sdk : Sdk⦄ (b : Chains sdk.Decimal) where
  -- The corks that have won and the upgrades that are stored.
  abbrev pub approvals : State b → ℕ
  approvals s = length s.winning + length s.upgrades

  -- A winning cork stands under its contract, and the keys of both tables ascend.
  pub record IsFiled (s : State b) : Type 0 where
    pub keyed : IsKeyed b s
    pub winning_ordered : Ordered ⦃key = winning_key b⦄ s.winning
    pub upgrades_ordered : Ordered ⦃key = number⦄ s.upgrades

module _ ⦃sdk : Sdk⦄ (b : Chains sdk.Decimal)
    (laws : KeyLaws (ℕ × (ℕ × b.Address)) ⦃key = winning_key b⦄) where
  -- What the search finds is stored under the chain, the height and the contract.
  first_winning-get :
      (chain h : ℕ) (a : b.Address) (c : AxelarCork) (t u : Table (ℕ × (ℕ × b.Address)) AxelarCork)
      → Entries ⦃key = winning_key b⦄ (λ k v. Table.get ⦃key = winning_key b⦄ k u ≡ some v) t
      → Entries ⦃key = winning_key b⦄ (λ k v. k.1.1 ≡ contract_of b v) t
      → first_winning b chain a t ≡ some (h, c)
      → Table.get ⦃key = winning_key b⦄ (chain, (h, contract_of b c)) u ≡ some c
  unfolding first_winning
  first_winning-get chain h a c [] u g k e = cc
  first_winning-get chain h a c (((i, (j, d)), v) ∷ t) u g k e =
      elim (Bool-cases (i == chain && b.address_eq.beq a d)) [
        | inl m ↦ ground (arith, m, e, g.0, k.0)
        | inr m ↦ first_winning-get chain h a c t u g.1 k.1 (ground (arith, m, e))
      ]

  drop_winning :
      (chain h : ℕ) (a : b.Address) (c : AxelarCork) (s : State b)
      → IsFiled b s
      → get_winning_axelar_cork b chain a s ≡ some (h, c)
      → let t = delete_winning_axelar_cork_by_blockheight b chain h c s in
        (approvals b t + 1 ≡ approvals b s) × IsFiled b t
  drop_winning chain h a c s f e =
      let k : ℕ × (ℕ × b.Address) = (chain, (h, contract_of b c)) in
      let stored =
        first_winning-get chain h a c s.winning s.winning
          (Ordered-get ⦃key = winning_key b⦄ laws s.winning f.winning_ordered) f.keyed e in
      (
        omega (
          arith,
          length-delete ⦃key = winning_key b⦄ laws k c s.winning f.winning_ordered stored,
        ),
        record {
          keyed =
              delete-Entries ⦃key = winning_key b⦄ (λ j v. j.1.1 ≡ contract_of b v) k s.winning
                f.keyed;
          winning_ordered = delete-Ordered ⦃key = winning_key b⦄ laws k s.winning f.winning_ordered;
          upgrades_ordered = f.upgrades_ordered;
        },
      )

  drop_upgrade :
      (chain : ℕ) (u : AxelarUpgradeData) (s : State b)
      → IsFiled b s
      → get_axelar_proxy_upgrade_data b chain s ≡ some u
      → let t = delete_axelar_proxy_upgrade_data b chain s in
        (approvals b t + 1 ≡ approvals b s) × IsFiled b t
  drop_upgrade chain u s f e = (
    omega (
      arith,
      length-delete ⦃key = number⦄ number-KeyLaws chain u s.upgrades f.upgrades_ordered e,
    ),
    record {
      keyed = f.keyed;
      winning_ordered = f.winning_ordered;
      upgrades_ordered =
          delete-Ordered ⦃key = number⦄ number-KeyLaws chain s.upgrades f.upgrades_ordered;
    },
  )

  Consumes-approvals :
      (p : PacketData) (s t : State b)
      → IsFiled b s
      → Consumes b p s t
      → (approvals b t + 1 ≡ approvals b s) × IsFiled b t
  Consumes-approvals p s t f (body, g, _, _, _, _, inl (call, h, w, _, found, _, e)) =
      rw e (drop_winning g.id h (b.hex_to_address call.target_contract) w s f found)
  Consumes-approvals p s t f (body, g, _, _, _, _, inr (u, found, _, e)) =
      rw e (drop_upgrade g.id u s f found)

  -- Packets that pass one after another, each one that Axelar is to act on, sent on the channel to it
  -- while the module is enabled.
  abbrev pub AllPass : String → List (String × PacketData) → State b → Type 0
  AllPass channel [] s = Unit
  AllPass channel ((bytes, p) ∷ packets) s =
      (s.params.enabled ≡ true)
      × ((channel == s.params.ibc_channel) ≡ true)
      × (b.packet_data bytes ≡ some p)
      × (commands b p s ≡ true)
      × ((validate_axelar_packet b channel bytes s).0 ≡ ok tt)
      × AllPass channel packets (validate_axelar_packet b channel bytes s).1

  -- If the winning corks stand under their contracts and the keys ascend in a strict and total order, then
  -- no more packets that Axelar is to act on pass, one after another, while the module is enabled and on
  -- the channel that its parameters name, than there are winning corks and upgrades in the store.
  pub passing_packets-le-approvals :
      (channel : String) (packets : List (String × PacketData)) (s : State b)
      → IsFiled b s
      → AllPass channel packets s
      → length packets ≤ approvals b s
  passing_packets-le-approvals channel [] s f h = omega arith
  passing_packets-le-approvals channel ((bytes, p) ∷ packets) s f
        (on, here, d, commanded, e, more) =
      let t = (validate_axelar_packet b channel bytes s).1 in
      let (used, filed) =
        Consumes-approvals p s t f
          (validate_axelar_packet-Consumes b channel bytes p s on here d commanded e) in
      omega (arith, used, passing_packets-le-approvals channel packets t filed more)
