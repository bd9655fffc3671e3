-- ===== src/AxelarCork/Relay.antt =====
-- The messages of x/axelarcork that send packets: `RelayCork`, `RelayProxyUpgrade` and `BumpCorkGas` of
-- x/axelarcork/keeper/msg_server.go, and the encoder of types/axelar_proxy.go.
pub mod Sending
use sommelier.Base.{ℕ, String, Bool, not, Option, none, some, ◌==◌, string_eq}
use sommelier.Base.Int.{ℤ, pos, ltb_ℤ}
use sommelier.Base.Word.{int64}
use sommelier.Base.Exec.{
  Exec, Outcome, sentinel, foreign, ◌>>=◌, ◌>>◌, pure, gets, or_panic, or_raise, raise_if, modify,
}
use sommelier.Sdk.{Sdk, Coin}
use sommelier.AxelarCork.Types.{
  Chains, State, Error, disabled, get_winning_axelar_cork, get_chain_configuration_by_id,
  increment_axelar_contract_call_nonce, get_axelar_proxy_upgrade_data,
  delete_axelar_proxy_upgrade_data,
}

pub record Fee : Type 0 where
  pub amount : String
  pub recipient : String

-- What a memo for Axelar says, with its kind of message. A payload that is nil is empty.
pub record AxelarMemo : Type 0 where
  pub destination_chain : String
  pub destination_address : String
  pub payload : String
  pub kind : ℕ
  pub fee : Option Fee

-- `transfertypes.MsgTransfer`; its timeout height is always zero.
pub record MsgTransfer : Type 0 where
  pub source_port : String
  pub source_channel : String
  pub token : Coin
  pub sender : String
  pub receiver : String
  pub timeout_timestamp : ℕ
  pub memo : String

pub record MsgRelayAxelarCorkRequest : Type 0 where
  pub signer : String
  pub token : Coin
  pub fee : ℕ
  pub chain_id : ℕ
  pub target_contract_address : String

pub record MsgRelayAxelarProxyUpgradeRequest : Type 0 where
  pub signer : String
  pub token : Coin
  pub fee : ℕ
  pub chain_id : ℕ

pub record MsgBumpAxelarCorkGasRequest : Type 0 where
  pub signer : String
  pub token : Coin
  pub message_id : String

-- `types.PureMessage`
abbrev pub pure_message : ℕ
pure_message = 1

-- The module's store beside the states of the other modules.
pub record Relayed (Store Ledger : Type 0) : Type 0 where
  pub store : Store
  pub ledger : Ledger

-- What the bank, the transfer keeper and the encoders do.
pub record Ibc {Decimal : Type 0} (b : Chains Decimal) : Type 1 where
  pub Ledger : Type 0
  -- `SendCoinsFromAccountToModule` of `NewCoins` of a token, to this module
  pub send_to_module : String → Coin → Ledger → Outcome Error (Unit {0}) × Ledger
  -- `Transfer`, which may call back
  pub transfer :
      MsgTransfer → Relayed (State b) Ledger → Outcome Error (Unit {0}) × Relayed (State b) Ledger
  -- `abi.Arguments.Pack` of a logic call, after its message id
  pub pack_logic_call : b.Address → ℤ → ℤ → String → Option String
  -- `json.Marshal` of a memo, and `strconv.FormatUint`
  pub marshal_memo : AxelarMemo → Option String
  pub format_uint : ℕ → String
  -- the block's time and a duration, in nanoseconds
  pub timeout_after : ℕ → ℕ

module _ ⦃sdk : Sdk⦄ (b : Chains sdk.Decimal) (ibc : Ibc b) where
  abbrev pub World : Type 0
  World = Relayed (State b) ibc.Ledger

  abbrev pub Sends : Type 0 → Type 0
  Sends A = Exec World Error A

  abbrev pub encode_logic_call_args : String → ℕ → ℕ → String → Option String
  encode_logic_call_args target nonce deadline call =
      ibc.pack_logic_call (b.hex_to_address target) (int64 nonce) (int64 deadline) call

  -- A call of the bank.
  abbrev pub pay_module : String → Coin → Sends Unit
  pay_module signer token w =
      let (sent, ledger) = ibc.send_to_module signer token w.ledger in
      (sent, record w { ledger = ledger })

  -- The next nonce, which is stored.
  abbrev pub next_nonce : ℕ → String → Sends ℕ
  next_nonce chain address w =
      let (n, s) = increment_axelar_contract_call_nonce b chain address w.store in
      (Outcome.ok n, record w { store = s })

  unfoldable pub relay_cork : MsgRelayAxelarCorkRequest → Sends Unit
  unfolding int64
  relay_cork m = do
    params ← gets (λ w. w.store.params)
    raise_if (not params.enabled) (sentinel disabled)
    found ← gets (λ w. get_chain_configuration_by_id b m.chain_id w.store)
    g ← or_raise found foreign
    won ←
        gets
          (λ w. get_winning_axelar_cork b g.id (b.hex_to_address m.target_contract_address) w.store)
    winner ← or_raise won foreign
    signer ← or_panic (b.acc_address m.signer)
    pay_module signer m.token
    nonce ← next_nonce m.chain_id winner.1.target_contract_address
    payload ←
        or_raise
          (encode_logic_call_args m.target_contract_address nonce winner.1.deadline
            winner.1.encoded_contract_call)
          foreign
    memo ←
        or_raise
          (ibc.marshal_memo (record {
            destination_chain = g.name;
            destination_address = g.proxy_address;
            payload = payload;
            kind = pure_message;
            fee =
                some
                  (record { amount = ibc.format_uint m.fee; recipient = params.executor_account });
          }))
          foreign
    ibc.transfer (record {
      source_port = params.ibc_port;
      source_channel = params.ibc_channel;
      token = m.token;
      sender = b.module_account;
      receiver = params.gmp_account;
      timeout_timestamp = ibc.timeout_after params.timeout_duration;
      memo = memo;
    })

  unfoldable pub relay_proxy_upgrade : ℤ → MsgRelayAxelarProxyUpgradeRequest → Sends Unit
  relay_proxy_upgrade height m = do
    params ← gets (λ w. w.store.params)
    raise_if (not params.enabled) (sentinel disabled)
    found ← gets (λ w. get_chain_configuration_by_id b m.chain_id w.store)
    g ← or_raise found foreign
    stored ← gets (λ w. get_axelar_proxy_upgrade_data b m.chain_id w.store)
    upgrade ← or_raise stored foreign
    raise_if (ltb_ℤ height upgrade.executable_height_threshold) foreign
    signer ← or_panic (b.acc_address m.signer)
    pay_module signer m.token
    memo ←
        or_raise
          (ibc.marshal_memo (record {
            destination_chain = g.name;
            destination_address = g.proxy_address;
            payload = upgrade.payload;
            kind = pure_message;
            fee =
                some
                  (record { amount = ibc.format_uint m.fee; recipient = params.executor_account });
          }))
          foreign
    ibc.transfer (record {
      source_port = params.ibc_port;
      source_channel = params.ibc_channel;
      token = m.token;
      sender = b.module_account;
      receiver = params.gmp_account;
      timeout_timestamp = ibc.timeout_after params.timeout_duration;
      memo = memo;
    })
    modify (λ w. record w { store = delete_axelar_proxy_upgrade_data b m.chain_id w.store })

  unfoldable pub bump_cork_gas : MsgBumpAxelarCorkGasRequest → Sends Unit
  bump_cork_gas m = do
    params ← gets (λ w. w.store.params)
    raise_if (not params.enabled) (sentinel disabled)
    ibc.transfer (record {
      source_port = params.ibc_port;
      source_channel = params.ibc_channel;
      token = m.token;
      sender = m.signer;
      receiver = params.executor_account;
      timeout_timestamp = ibc.timeout_after params.timeout_duration;
      memo = m.message_id;
    })
