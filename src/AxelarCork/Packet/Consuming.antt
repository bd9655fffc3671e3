-- ===== src/AxelarCork/Packet/Consuming.antt =====
-- What a packet that Axelar is to act on must carry, and what its sending takes from the store.
use sommelier.Base.{
  ℕ, ◌≡◌, ◌≢◌, ◌⊎◌, refl, ◌∙◌, String, Bool, true, false, not, ◌&&◌, none, some, List, ◌==◌, nat_eq,
  string_eq, arith, Option-cases, inl, inr,
}
use text.Mathlib.TextEquality.{eq_iff}
use sommelier.Base.Exec.{ok}
use sommelier.Sdk.{Sdk}
use sommelier.AxelarCork.Types.{
  AxelarCork, AxelarUpgradeData, ChainConfiguration, Chains, PacketData, AxelarBody, State,
  get_winning_axelar_cork, get_chain_configuration_by_name,
  delete_winning_axelar_cork_by_blockheight, get_axelar_proxy_upgrade_data,
  delete_axelar_proxy_upgrade_data,
}
use sommelier.AxelarCork.Packet.{
  LogicCall, decode_logic_call_args, decode_upgrade_args, check_logic_call, check_upgrade,
  check_payload, check_memo, check_packet, validate_axelar_packet,
}

module _ ⦃sdk : Sdk⦄ (b : Chains sdk.Decimal) where
  -- The payload is a call of the stored winning cork, which goes.
  abbrev pub ConsumesCork : ChainConfiguration → String → State b → State b → Type 0
  ConsumesCork g payload s t =
      (call : LogicCall) × (h : ℕ) × (w : AxelarCork) × (decode_logic_call_args b payload
        ≡ some call)
      × (get_winning_axelar_cork b g.id (b.hex_to_address call.target_contract) s ≡ some (h, w))
      × (w.encoded_contract_call ≡ call.call_data)
      × (t ≡ delete_winning_axelar_cork_by_blockheight b g.id h w s)

  -- The payload is that of the stored upgrade, which goes.
  abbrev pub ConsumesUpgrade : ChainConfiguration → String → State b → State b → Type 0
  ConsumesUpgrade g payload s t =
      (u : AxelarUpgradeData) × (get_axelar_proxy_upgrade_data b g.id s ≡ some u)
      × (u.payload ≡ payload)
      × (t ≡ delete_axelar_proxy_upgrade_data b g.id s)

  check_logic_call-ConsumesCork :
      (g : ChainConfiguration) (payload : String) (call : LogicCall) (s : State b)
      → decode_logic_call_args b payload ≡ some call
      → (check_logic_call b g call s).0 ≡ ok tt
      → ConsumesCork g payload s (check_logic_call b g call s).1
  unfolding check_logic_call
  check_logic_call-ConsumesCork g payload call s d e =
      elim (Option-cases
        (get_winning_axelar_cork b g.id (b.hex_to_address call.target_contract) s)) [
          | inl q ↦ absurd (ground (arith, e, q))
          | inr ((h, w), q) ↦
              let body = eq_iff w.encoded_contract_call call.call_data in
              (call, h, w, d, q, body.0 (ground (arith, e, q)), ground (arith, e, q))
        ]

  check_upgrade-ConsumesUpgrade :
      (g : ChainConfiguration) (payload proxy : String) (targets : List String) (s : State b)
      → (check_upgrade b g payload proxy targets s).0 ≡ ok tt
      → ConsumesUpgrade g payload s (check_upgrade b g payload proxy targets s).1
  unfolding check_upgrade
  check_upgrade-ConsumesUpgrade g payload proxy targets s e =
      elim (Option-cases (get_axelar_proxy_upgrade_data b g.id s)) [
        | inl q ↦ absurd (ground (arith, e, q))
        | inr (u, q) ↦
            (u, q, (eq_iff u.payload payload).0 (ground (arith, e, q)), ground (arith, e, q))
      ]

  check_payload_call :
      (g : ChainConfiguration) (payload : String) (call : LogicCall) (s : State b)
      → decode_logic_call_args b payload ≡ some call
      → check_payload b g payload s ≡ check_logic_call b g call s
  unfolding check_payload
  check_payload_call g payload call s d = rw (check_payload, d) refl

  check_payload_upgrade :
      (g : ChainConfiguration) (payload proxy : String) (targets : List String) (s : State b)
      → decode_logic_call_args b payload ≡ none
      → decode_upgrade_args b payload ≡ some (proxy, targets)
      → check_payload b g payload s ≡ check_upgrade b g payload proxy targets s
  unfolding check_payload
  check_payload_upgrade g payload proxy targets s d u = rw (check_payload, d, u) refl

  check_payload_neither :
      (g : ChainConfiguration) (payload : String) (s : State b)
      → decode_logic_call_args b payload ≡ none
      → decode_upgrade_args b payload ≡ none
      → (check_payload b g payload s).0 ≢ ok tt
  unfolding check_payload
  check_payload_neither g payload s d u = rw (check_payload, d, u) (λ e. cc)

  check_payload_consumes :
      (g : ChainConfiguration) (payload : String) (s : State b)
      → (check_payload b g payload s).0 ≡ ok tt
      → ConsumesCork g payload s (check_payload b g payload s).1
        ⊎ ConsumesUpgrade g payload s (check_payload b g payload s).1
  check_payload_consumes g payload s e = elim (Option-cases (decode_logic_call_args b payload)) [
    | inr (call, d) ↦
        let eq = check_payload_call g payload call s d in
        inl (rw eq (check_logic_call-ConsumesCork g payload call s d (rw eq at e)))
    | inl d ↦ elim (Option-cases (decode_upgrade_args b payload)) [
      | inr ((proxy, targets), u) ↦
          let eq = check_payload_upgrade g payload proxy targets s d u in
          inr (rw eq (check_upgrade-ConsumesUpgrade g payload proxy targets s (rw eq at e)))
      | inl u ↦ absurd (check_payload_neither g payload s d u e)
    ]
  ]

  check_memo_payload :
      (memo : String) (body : AxelarBody) (g : ChainConfiguration) (s : State b)
      → b.axelar_body memo ≡ some body
      → get_chain_configuration_by_name b body.destination_chain s ≡ some g
      → (check_memo b memo s).0 ≡ ok tt
      → check_memo b memo s ≡ check_payload b g body.payload s
  unfolding check_memo
  check_memo_payload memo body g s d f e = ground (arith, d, f, e)

  -- A memo that passes names a configured chain and its proxy.
  check_memo_ok :
      (memo : String) (s : State b)
      → (check_memo b memo s).0 ≡ ok tt
      → (body : AxelarBody) × (g : ChainConfiguration) × (b.axelar_body memo ≡ some body)
        × (get_chain_configuration_by_name b body.destination_chain s ≡ some g)
        × (b.address_eq.beq
              (b.hex_to_address body.destination_address)
              (b.hex_to_address g.proxy_address)
            ≡ true)
        × (check_memo b memo s ≡ check_payload b g body.payload s)
  unfolding check_memo
  check_memo_ok memo s e = elim (Option-cases (b.axelar_body memo)) [
    | inl d ↦ absurd (ground (arith, d, e))
    | inr (body, d) ↦
        elim (Option-cases (get_chain_configuration_by_name b body.destination_chain s)) [
          | inl f ↦ absurd (ground (arith, d, f, e))
          | inr (g, f) ↦ (body, g, d, f, ground (arith, d, f, e), ground (arith, d, f, e))
        ]
  ]

  -- Whether a packet is one that Axelar acts on: it goes to the account for general messages.
  abbrev pub commands : PacketData → State b → Bool
  commands p s = elim (b.acc_address p.receiver) [
    | none ↦ false
    | some receiver ↦ elim (b.acc_address s.params.gmp_account) [
      | none ↦ false
      | some gmp ↦ receiver == gmp && not (p.memo == "")
    ]
  ]

  abbrev pub is_module : PacketData → Bool
  is_module p = elim (b.acc_address p.sender) [
    | none ↦ false
    | some sender ↦ sender == b.module_account
  ]

  abbrev pub Consumes : PacketData → State b → State b → Type 0
  Consumes p s t =
      (body : AxelarBody) × (g : ChainConfiguration) × (is_module p ≡ true)
      × (b.axelar_body p.memo ≡ some body)
      × (get_chain_configuration_by_name b body.destination_chain s ≡ some g)
      × (b.address_eq.beq (b.hex_to_address body.destination_address)
            (b.hex_to_address g.proxy_address)
          ≡ true)
      × (ConsumesCork g body.payload s t ⊎ ConsumesUpgrade g body.payload s t)

  packet_memo :
      (channel bytes : String) (p : PacketData) (s : State b)
      → s.params.enabled ≡ true
      → (channel == s.params.ibc_channel) ≡ true
      → b.packet_data bytes ≡ some p
      → commands p s ≡ true
      → (validate_axelar_packet b channel bytes s).0 ≡ ok tt
      → (is_module p ≡ true) × (validate_axelar_packet b channel bytes s ≡ check_memo b p.memo s)
  unfolding validate_axelar_packet check_packet
  packet_memo channel bytes p s on here d commanded e =
      (ground (arith, on, here, d, commanded, e), ground (arith, on, here, d, commanded, e))

  -- A packet with a memo that the module, while it is enabled, lets pass to Axelar's account, on the channel
  -- that its parameters name, comes from the module's own account, names the proxy of a configured chain, and carries the stored winning
  -- cork or upgrade of that chain, which its sending deletes.
  pub validate_axelar_packet-Consumes :
      (channel bytes : String) (p : PacketData) (s : State b)
      → s.params.enabled ≡ true
      → (channel == s.params.ibc_channel) ≡ true
      → b.packet_data bytes ≡ some p
      → commands p s ≡ true
      → (validate_axelar_packet b channel bytes s).0 ≡ ok tt
      → Consumes p s (validate_axelar_packet b channel bytes s).1
  validate_axelar_packet-Consumes channel bytes p s on here d commanded e =
      let (sent, eq) = packet_memo channel bytes p s on here d commanded e in
      let (body, g, f, named, proxied, eq') = check_memo_ok p.memo s (rw eq at e) in
      let whole = eq ∙ eq' in
      (
        body,
        g,
        sent,
        f,
        named,
        proxied,
        rw whole (check_payload_consumes g body.payload s (rw whole at e)),
      )

  -- A packet that the module does not let pass leaves the store as it was.
  pub validate_axelar_packet_rejects :
      (channel bytes : String) (s : State b)
      → (validate_axelar_packet b channel bytes s).0 ≢ ok tt
      → (validate_axelar_packet b channel bytes s).1 ≡ s
  unfolding validate_axelar_packet check_packet check_memo check_payload check_logic_call
      check_upgrade
  validate_axelar_packet_rejects channel bytes s n = ground (arith, n)
