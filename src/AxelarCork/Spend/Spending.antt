-- ===== src/AxelarCork/Spend/Spending.antt =====
-- What a spend from the community pool that succeeds has checked and done.
use sommelier.Base.{◌≡◌, String, false, none, some, arith, Option-cases, inl, inr}
use sommelier.Base.Exec.{ok}
use sommelier.Sdk.{Sdk, Coin}
use sommelier.AxelarCork.Types.{ChainConfiguration, Chains, get_chain_configuration_by_id}
use sommelier.AxelarCork.Relay.{AxelarMemo, MsgTransfer, Ibc, World}
use sommelier.AxelarCork.Validate.Requests.{AxelarCommunityPoolSpendProposal}
use sommelier.AxelarCork.Spend.{Pool, pure_token_transfer, spend_community_pool}

module _ ⦃sdk : Sdk⦄ (b : Chains sdk.Decimal) (ibc : Ibc b) (pool : Pool b ibc)
    (p : AxelarCommunityPoolSpendProposal) (w : World b ibc) where
  -- The memo for a transfer to the recipient, and the transfer itself.
  abbrev pub spend_memo : ChainConfiguration → AxelarMemo
  spend_memo g = record {
    destination_chain = g.name;
    destination_address = p.recipient;
    payload = "";
    kind = pure_token_transfer;
    fee = none;
  }

  abbrev pub spend_transfer : Coin → String → MsgTransfer
  spend_transfer total memo = record {
    source_port = w.store.params.ibc_port;
    source_channel = w.store.params.ibc_channel;
    token = total;
    sender = pool.distribution_account;
    receiver = w.store.params.gmp_account;
    timeout_timestamp = ibc.timeout_after w.store.params.timeout_duration;
    memo = memo;
  }

  -- The amount and the chain's fee leave the pool, which holds them, after a transfer of both.
  abbrev pub Spends : World b ibc → Type 0
  Spends after =
      (g : ChainConfiguration) × (fee : Coin) × (total : Coin) × (memo : String)
      × (get_chain_configuration_by_id b p.chain_id w.store ≡ some g)
      × (pool.find_coin p.amount.denom g.bridge_fees ≡ some fee)
      × (pool.add_coin p.amount fee ≡ some total)
      × ((pool.safe_sub (pool.get_fee_pool w.ledger) (pool.dec_coins total)).1 ≡ false)
      × (ibc.marshal_memo (spend_memo g) ≡ some memo)
      × ((ibc.transfer (spend_transfer total memo) w).0 ≡ ok tt)
      × (after ≡ record {
        store = (ibc.transfer (spend_transfer total memo) w).1.store;
        ledger =
            pool.set_fee_pool
              ((pool.safe_sub (pool.get_fee_pool w.ledger) (pool.dec_coins total)).0)
              (ibc.transfer (spend_transfer total memo) w).1.ledger;
      })

  -- If a spend succeeds, the chain is configured with a fee for the denom, and the pool held the amount
  -- and the fee. The transfer of their sum to Axelar's account, from the distribution module's and with
  -- the recipient in its memo, has succeeded, and the pool is then set to what it held before the transfer
  -- less the sum.
  pub spend_community_pool-Spends :
      (spend_community_pool b ibc pool p w).0 ≡ ok tt
      → Spends (spend_community_pool b ibc pool p w).1
  unfolding spend_community_pool
  spend_community_pool-Spends e =
      elim (Option-cases (get_chain_configuration_by_id b p.chain_id w.store)) [
        | inl q ↦ absurd (ground (arith, e, q))
        | inr (g, q) ↦ elim (Option-cases (pool.find_coin p.amount.denom g.bridge_fees)) [
          | inl f ↦ absurd (ground (arith, e, q, f))
          | inr (fee, f) ↦ elim (Option-cases (pool.add_coin p.amount fee)) [
            | inl t ↦ absurd (ground (arith, e, q, f, t))
            | inr (total, t) ↦ elim (Option-cases (ibc.marshal_memo (spend_memo g))) [
              | inl j ↦ absurd (ground (arith, e, q, f, t, j))
              | inr (memo, j) ↦ (
                g,
                fee,
                total,
                memo,
                q,
                f,
                t,
                ground (arith, e, q, f, t, j),
                j,
                ground (arith, e, q, f, t, j),
                ground (arith, e, q, f, t, j),
              )
            ]
          ]
        ]
      ]
