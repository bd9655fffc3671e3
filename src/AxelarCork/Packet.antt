-- ===== src/AxelarCork/Packet.antt =====
-- `ValidateAxelarPacket` of x/axelarcork/keeper/packet.go, which the IBC middleware calls for every packet
-- that is sent, and the decoders of x/axelarcork/types/axelar_proxy.go.
pub mod Consuming
use sommelier.Base.{
  ℕ, ◌%◌, ◌^◌, String, Bool, true, false, not, Option, none, some, List, [], ◌∷◌, map, any, length,
  ◌==◌, nat_eq, string_eq,
}
use sommelier.Base.Exec.{foreign, ◌>>=◌, ◌>>◌, pure, raise, gets, or_raise, raise_if, when, modify}
use sommelier.Sdk.{Sdk}
use sommelier.AxelarCork.Types.{
  AxelarCork, ChainConfiguration, Chains, State, get_winning_axelar_cork,
  get_chain_configuration_by_name, delete_winning_axelar_cork_by_blockheight,
  get_axelar_proxy_upgrade_data, delete_axelar_proxy_upgrade_data,
}
use sommelier.AxelarCork.Tally.{Action}

pub record LogicCall : Type 0 where
  pub target_contract : String
  pub nonce : ℕ
  pub deadline : ℕ
  pub call_data : String

module _ ⦃sdk : Sdk⦄ (b : Chains sdk.Decimal) where
  -- `DecodeLogicCallArgs`; the message id of a logic call is 0
  abbrev pub decode_logic_call_args : String → Option LogicCall
  decode_logic_call_args bytes = elim (b.unpack_logic_call bytes) [
    | none ↦ none
    | some (msg_id, (target, (nonce, (deadline, call)))) ↦ elim (msg_id == 0) [
      | false ↦ none
      | true ↦ some (record {
        target_contract = b.address_text target;
        nonce = nonce % 2 ^ 64;
        deadline = deadline % 2 ^ 64;
        call_data = call;
      })
    ]
  ]

  -- `DecodeUpgradeArgs`; the message id of an upgrade is 1
  abbrev pub decode_upgrade_args : String → Option (String × List String)
  decode_upgrade_args bytes = elim (b.unpack_upgrade bytes) [
    | none ↦ none
    | some (msg_id, (proxy, targets)) ↦ elim (msg_id == 1) [
      | false ↦ none
      | true ↦ some (b.address_text proxy, map b.address_text targets)
    ]
  ]

  unfoldable pub check_logic_call : ChainConfiguration → LogicCall → Action b Unit
  check_logic_call g call = do
    raise_if (call.nonce == 0) foreign
    found ← gets (get_winning_axelar_cork b g.id (b.hex_to_address call.target_contract))
    winner ← or_raise found foreign
    raise_if (not (winner.1.encoded_contract_call == call.call_data)) foreign
    modify (delete_winning_axelar_cork_by_blockheight b g.id winner.0 winner.1)

  unfoldable pub check_upgrade : ChainConfiguration → String → String → List String → Action b Unit
  check_upgrade g payload proxy targets = do
    raise_if (not (b.is_hex_address proxy)) foreign
    raise_if (length targets == 0) foreign
    raise_if (any (λ t. not (b.is_hex_address t)) targets) foreign
    found ← gets (get_axelar_proxy_upgrade_data b g.id)
    upgrade ← or_raise found foreign
    raise_if (not (upgrade.payload == payload)) foreign
    modify (delete_axelar_proxy_upgrade_data b g.id)

  unfoldable pub check_payload : ChainConfiguration → String → Action b Unit
  unfolding check_logic_call check_upgrade
  check_payload g payload = elim (decode_logic_call_args payload) [
    | some call ↦ check_logic_call g call
    | none ↦ elim (decode_upgrade_args payload) [
      | some (proxy, targets) ↦ check_upgrade g payload proxy targets
      | none ↦ raise foreign
    ]
  ]

  unfoldable pub check_memo : String → Action b Unit
  unfolding check_payload
  check_memo memo = do
    body ← or_raise (b.axelar_body memo) foreign
    found ← gets (get_chain_configuration_by_name b body.destination_chain)
    g ← or_raise found foreign
    raise_if (not (b.is_hex_address g.proxy_address)) foreign
    raise_if (not (b.is_hex_address body.destination_address)) foreign
    raise_if
        (not (
          b.address_eq.beq (b.hex_to_address body.destination_address)
            (b.hex_to_address g.proxy_address)))
        foreign
    check_payload g body.payload

  unfoldable pub check_packet : String → Action b Unit
  unfolding check_memo
  check_packet bytes = do
    params ← gets (λ s. s.params)
    packet ← or_raise (b.packet_data bytes) foreign
    gmp ← or_raise (b.acc_address params.gmp_account) foreign
    receiver ← or_raise (b.acc_address packet.receiver) foreign
    sender ← or_raise (b.acc_address packet.sender) foreign
    when (receiver == gmp) (
        raise_if (not (sender == b.module_account)) foreign
        >> when (not (packet.memo == "")) (check_memo packet.memo))

  unfoldable pub validate_axelar_packet : String → String → Action b Unit
  unfolding check_packet
  validate_axelar_packet channel bytes = do
    params ← gets (λ s. s.params)
    when params.enabled (when (channel == params.ibc_channel) (check_packet bytes))
