-- ===== src/AxelarCork/Spend.antt =====
-- `HandleCommunityPoolSpendProposal` of x/axelarcork/keeper/proposal_handler.go: coins of the community
-- pool go to Axelar. Events and logs are left out.
pub mod Spending
use sommelier.Base.{ℕ, String, Bool, Option, none, some, List}
use sommelier.Base.Exec.{wrapped, foreign, ◌>>=◌, ◌>>◌, gets, or_panic, or_raise, raise_if, modify}
use sommelier.Base.Exec.{sentinel}
use sommelier.Sdk.{Sdk, Coin}
use sommelier.AxelarCork.Types.{Chains, get_chain_configuration_by_id}
use sommelier.AxelarCork.Relay.{AxelarMemo, MsgTransfer, Ibc, Sends}
use sommelier.AxelarCork.Validate.Requests.{AxelarCommunityPoolSpendProposal}

-- `types.PureTokenTransfer`
abbrev pub pure_token_transfer : ℕ
pure_token_transfer = 3

module _ ⦃sdk : Sdk⦄ (b : Chains sdk.Decimal) (ibc : Ibc b) where
  -- The distribution module's pool, which is a part of the other modules' states, and the SDK's coins.
  pub record Pool : Type 1 where
    pub DecCoins : Type 0
    pub get_fee_pool : ibc.Ledger → DecCoins
    pub set_fee_pool : DecCoins → ibc.Ledger → ibc.Ledger
    -- `NewDecCoinsFromCoins` of a coin, and `SafeSub`, which tells if a difference is negative
    pub dec_coins : Coin → DecCoins
    pub safe_sub : DecCoins → DecCoins → DecCoins × Bool
    -- `Coins.Find`, of the fees of a chain, and `Coin.Add`, which panics where denoms differ
    pub find_coin : String → List Coin → Option Coin
    pub add_coin : Coin → Coin → Option Coin
    -- the address of the distribution module's account
    pub distribution_account : String

module _ ⦃sdk : Sdk⦄ (b : Chains sdk.Decimal) (ibc : Ibc b) (pool : Pool b ibc) where
  unfoldable pub spend_community_pool : AxelarCommunityPoolSpendProposal → Sends b ibc (Unit {0})
  spend_community_pool p = do
    params ← gets (λ w. w.store.params)
    found ← gets (λ w. get_chain_configuration_by_id b p.chain_id w.store)
    g ← or_raise found foreign
    fee ← or_raise (pool.find_coin p.amount.denom g.bridge_fees) foreign
    total ← or_panic (pool.add_coin p.amount fee)
    held ← gets (λ w. pool.get_fee_pool w.ledger)
    raise_if ((pool.safe_sub held (pool.dec_coins total)).1) foreign
    memo ←
        or_raise
          (ibc.marshal_memo (record {
            destination_chain = g.name;
            destination_address = p.recipient;
            payload = "";
            kind = pure_token_transfer;
            fee = none;
          }))
          foreign
    ibc.transfer (record {
      source_port = params.ibc_port;
      source_channel = params.ibc_channel;
      token = total;
      sender = pool.distribution_account;
      receiver = params.gmp_account;
      timeout_timestamp = ibc.timeout_after params.timeout_duration;
      memo = memo;
    })
    modify (λ w. record w {
      ledger = pool.set_fee_pool ((pool.safe_sub held (pool.dec_coins total)).0) w.ledger;
    })
