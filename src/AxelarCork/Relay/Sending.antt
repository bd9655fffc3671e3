-- ===== src/AxelarCork/Relay/Sending.antt =====
-- What a relay of x/axelarcork that succeeds has found and sent.
use sommelier.Base.{ℕ, ◌+◌, ◌%◌, ◌^◌, ◌≡◌, String, false, none, some, arith, Option-cases, inl, inr}
use sommelier.Base.Int.{ℤ, ltb_ℤ}
use sommelier.Base.Exec.{Outcome, ok}
use sommelier.Base.Table
use sommelier.Base.Table.{get-delete}
use sommelier.Base.Table.Pair.{number, pair}
use sommelier.Sdk.{Sdk}
use sommelier.AxelarCork.Types.{
  AxelarCork, AxelarUpgradeData, ChainConfiguration, Chains, State, Error, get_winning_axelar_cork,
  get_chain_configuration_by_id, by_address, get_axelar_proxy_upgrade_data,
  delete_axelar_proxy_upgrade_data,
}
use sommelier.AxelarCork.Relay.{
  AxelarMemo, MsgTransfer, MsgRelayAxelarCorkRequest, MsgRelayAxelarProxyUpgradeRequest, Ibc, World,
  pure_message, encode_logic_call_args, relay_cork, relay_proxy_upgrade,
}

module _ ⦃sdk : Sdk⦄ (b : Chains sdk.Decimal) (ibc : Ibc b) (m : MsgRelayAxelarCorkRequest)
    (w : World b ibc) where
  -- The nonce that the call gets: one more than the contract's stored one, or 1, modulo 2 ^ 64.
  abbrev nonce_for : AxelarCork → ℕ
  nonce_for c =
      (elim (Table.get ⦃key = pair number (by_address b)⦄
          (m.chain_id, b.hex_to_address c.target_contract_address) w.store.nonces) [
            | none ↦ 0
            | some n ↦ n
          ]
        + 1)
      % 2 ^ 64

  -- The memo for a call of a winning cork.
  abbrev pub memo_for : ChainConfiguration → String → AxelarMemo
  memo_for g payload = record {
    destination_chain = g.name;
    destination_address = g.proxy_address;
    payload = payload;
    kind = pure_message;
    fee =
        some
          (record { amount = ibc.format_uint m.fee; recipient = w.store.params.executor_account });
  }

  abbrev pub transfer_of : String → MsgTransfer
  transfer_of memo = record {
    source_port = w.store.params.ibc_port;
    source_channel = w.store.params.ibc_channel;
    token = m.token;
    sender = b.module_account;
    receiver = w.store.params.gmp_account;
    timeout_timestamp = ibc.timeout_after w.store.params.timeout_duration;
    memo = memo;
  }

  -- A call of a stored winning cork goes to the proxy of its chain, under the next nonce.
  abbrev pub RelaysCork : Outcome Error (Unit {0}) × World b ibc → Type 0
  RelaysCork after =
      (g : ChainConfiguration) × (h : ℕ) × (c : AxelarCork) × (signer : String) × (payload : String)
      × (memo : String) × (get_chain_configuration_by_id b m.chain_id w.store ≡ some g)
      × (get_winning_axelar_cork b g.id (b.hex_to_address m.target_contract_address) w.store
          ≡ some (h, c))
      × ((ibc.send_to_module signer m.token w.ledger).0 ≡ ok tt)
      × (encode_logic_call_args b ibc m.target_contract_address (nonce_for c) c.deadline
            c.encoded_contract_call
          ≡ some payload)
      × (ibc.marshal_memo (memo_for g payload) ≡ some memo)
      × (after
          ≡ ibc.transfer (transfer_of memo) (record {
            store = record w.store {
              nonces =
                  Table.set ⦃key = pair number (by_address b)⦄
                    (m.chain_id, b.hex_to_address c.target_contract_address) (nonce_for c)
                    w.store.nonces;
            };
            ledger = (ibc.send_to_module signer m.token w.ledger).1;
          }))

  -- If `RelayCork` succeeds, a winning cork is stored for the contract on a configured chain, and the
  -- token has been paid to the module. What it has done is the transfer, from the module's account to
  -- Axelar's, of the memo with the cork's call to the chain's proxy, under the contract's nonce and one more,
  -- modulo 2 ^ 64, in the store that has that nonce for the contract and is otherwise the same.
  pub relay_cork-RelaysCork : (relay_cork b ibc m w).0 ≡ ok tt → RelaysCork (relay_cork b ibc m w)
  unfolding relay_cork
  relay_cork-RelaysCork e =
      elim (Option-cases (get_chain_configuration_by_id b m.chain_id w.store)) [
        | inl q ↦ absurd (ground (arith, e, q))
        | inr (g, q) ↦
            elim (Option-cases (
              get_winning_axelar_cork b g.id (b.hex_to_address m.target_contract_address)
                w.store)) [
                  | inl r ↦ absurd (ground (arith, e, q, r))
                  | inr ((h, c), r) ↦ elim (Option-cases (b.acc_address m.signer)) [
                    | inl a ↦ absurd (ground (arith, e, q, r, a))
                    | inr (signer, a) ↦
                        elim (Option-cases (
                          encode_logic_call_args b ibc m.target_contract_address (nonce_for c)
                            c.deadline c.encoded_contract_call)) [
                              | inl k ↦ absurd (ground (arith, e, q, r, a, k))
                              | inr (payload, k) ↦
                                  elim (Option-cases (ibc.marshal_memo (memo_for g payload))) [
                                    | inl j ↦ absurd (ground (arith, e, q, r, a, k, j))
                                    | inr (memo, j) ↦ (
                                      g,
                                      h,
                                      c,
                                      signer,
                                      payload,
                                      memo,
                                      q,
                                      r,
                                      ground (arith, e, q, r, a, k, j),
                                      k,
                                      j,
                                      ground (arith, e, q, r, a, k, j),
                                    )
                                  ]
                            ]
                  ]
                ]
      ]

module _ ⦃sdk : Sdk⦄ (b : Chains sdk.Decimal) (ibc : Ibc b) (height : ℤ)
    (m : MsgRelayAxelarProxyUpgradeRequest) (w : World b ibc) where
  abbrev pub RelaysUpgrade : World b ibc → Type 0
  RelaysUpgrade after =
      (u : AxelarUpgradeData) × (get_axelar_proxy_upgrade_data b m.chain_id w.store ≡ some u)
      × (ltb_ℤ height u.executable_height_threshold ≡ false)
      × (get_axelar_proxy_upgrade_data b m.chain_id after.store ≡ none)

  gone :
      (s : State b)
      → get_axelar_proxy_upgrade_data b m.chain_id (delete_axelar_proxy_upgrade_data b m.chain_id s)
        ≡ none
  gone s = ground (
    arith,
    get-delete ⦃key = number⦄ m.chain_id m.chain_id s.upgrades,
    number.eq.beq_iff m.chain_id m.chain_id,
  )

  abbrev upgrade_memo : ChainConfiguration → AxelarUpgradeData → AxelarMemo
  upgrade_memo g u = record {
    destination_chain = g.name;
    destination_address = g.proxy_address;
    payload = u.payload;
    kind = pure_message;
    fee =
        some
          (record { amount = ibc.format_uint m.fee; recipient = w.store.params.executor_account });
  }

  abbrev upgrade_transfer : String → MsgTransfer
  upgrade_transfer memo = record {
    source_port = w.store.params.ibc_port;
    source_channel = w.store.params.ibc_channel;
    token = m.token;
    sender = b.module_account;
    receiver = w.store.params.gmp_account;
    timeout_timestamp = ibc.timeout_after w.store.params.timeout_duration;
    memo = memo;
  }

  -- If `RelayProxyUpgrade` succeeds, an upgrade of the chain is stored whose threshold the height has
  -- reached, and afterwards none is.
  pub relay_proxy_upgrade-RelaysUpgrade :
      (relay_proxy_upgrade b ibc height m w).0 ≡ ok tt
      → RelaysUpgrade (relay_proxy_upgrade b ibc height m w).1
  unfolding relay_proxy_upgrade
  relay_proxy_upgrade-RelaysUpgrade e =
      elim (Option-cases (get_chain_configuration_by_id b m.chain_id w.store)) [
        | inl q ↦ absurd (ground (arith, e, q))
        | inr (g, q) ↦ elim (Option-cases (get_axelar_proxy_upgrade_data b m.chain_id w.store)) [
          | inl r ↦ absurd (ground (arith, e, q, r))
          | inr (u, r) ↦ elim (Option-cases (b.acc_address m.signer)) [
            | inl a ↦ absurd (ground (arith, e, q, r, a))
            | inr (signer, a) ↦ elim (Option-cases (ibc.marshal_memo (upgrade_memo g u))) [
              | inl j ↦ absurd (ground (arith, e, q, r, a, j))
              | inr (memo, j) ↦
                  let paid : World b ibc = record {
                    store = w.store;
                    ledger = (ibc.send_to_module signer m.token w.ledger).1;
                  } in
                  let after = (ibc.transfer (upgrade_transfer memo) paid).1.store in
                  (u, r, ground (arith, e, q, r, a, j), ground (arith, e, q, r, a, j, gone after))
            ]
          ]
        ]
      ]
