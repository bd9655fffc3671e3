-- ===== src/AxelarCork/Tests.antt =====
-- Runs of x/axelarcork: a chain with a vote, a winning cork, and packets.
mod Runs
use sommelier.Base.{
  ◌+◌, ℕ, ◌≡◌, ◌≢◌, refl, String, true, false, Option, none, some, [], ◌∷◌, any, leb, ◌==◌, nat_eq,
  string_eq, if◌then◌else◌,
}
use sommelier.Base.Int.{ℤ, pos}
use sommelier.Base.Word.{sub_u64, int64}
use sommelier.Base.Exec.{ok, for_each}
use sommelier.Base.Table
use sommelier.Base.Table.{values}
use sommelier.Base.Table.Ordered.{before_text}
use sommelier.Base.Table.Pair.{number}
use sommelier.Sdk.Scaled.{scaled, of_int, mul_dec, quo_dec}
use sommelier.AxelarCork.Types.{
  AxelarCork, ChainConfiguration, PacketData, Chains, State, first_winning, first_named,
}
use sommelier.AxelarCork.Tally.{
  scheduled_for, winning_for, add_axelar_vote, count_axelar_votes, judge_axelar,
  get_approved_scheduled_axelar_corks, store_winning, expire_winning, end_chain, end_blocker,
}
use sommelier.AxelarCork.Tally.Winning.{winning_at, IsKeyed}
use sommelier.AxelarCork.Tally.Expiry.{end_blocker_expires}
use sommelier.AxelarCork.Packet.{
  validate_axelar_packet, check_packet, check_memo, check_payload, check_logic_call, check_upgrade,
}
use sommelier.AxelarCork.Packet.Consuming.{
  Consumes, validate_axelar_packet-Consumes, validate_axelar_packet_rejects,
}
use sommelier.Sdk.{Coin}
use sommelier.AxelarCork.Relay.{
  Ibc, World, MsgRelayAxelarCorkRequest, MsgRelayAxelarProxyUpgradeRequest, relay_cork,
  relay_proxy_upgrade,
}
use sommelier.AxelarCork.Relay.Sending.{
  RelaysCork, relay_cork-RelaysCork, RelaysUpgrade, relay_proxy_upgrade-RelaysUpgrade,
}
use sommelier.AxelarCork.Messages.{MsgScheduleAxelarCorkRequest, schedule_axelar_cork}
use sommelier.AxelarCork.Messages.Scheduling.{SchedulesAxelar, schedule_axelar_cork_ok}

abbrev pub packet : PacketData
packet = record { sender = "module"; receiver = "gmp"; memo = "call" }

abbrev packet_of : String → Option PacketData
packet_of bytes = if bytes == "bad" then none else some packet

-- Two validators, of which "v" has 9 of 10. A packet's memo is the call that it carries.
abbrev pub texts : Chains ℤ
texts = record {
  Address = String;
  address_eq = string_eq;
  hex_to_address = λ s. s;
  address_text = λ s. s;
  is_hex_address = λ s. true;
  before_address = before_text;
  before_text = before_text;
  keccak = λ height chain address call. call;
  power = λ val. if val == "v" then some 9 else if val == "u" then some 1 else none;
  total_power = pos 10;
  text = λ d. "";
  acc_address = λ s. some s;
  module_account = "module";
  orchestrator_validator = λ s. if s == "orchestrator" then some "v" else none;
  packet_data = packet_of;
  axelar_body = λ memo.
      some
        (record { destination_chain = "arbitrum"; destination_address = "proxy"; payload = memo });
  unpack_logic_call = λ payload. some (0, ("cellar", (1, (99, payload))));
  unpack_upgrade = λ payload. none;
}

abbrev pub call : AxelarCork
call = record {
  encoded_contract_call = "call";
  chain_id = 42161;
  target_contract_address = "cellar";
  deadline = 99;
}

abbrev pub arbitrum : ChainConfiguration
arbitrum = record { name = "arbitrum"; id = 42161; proxy_address = "proxy"; bridge_fees = [] }

abbrev pub voted : State texts
voted = record {
  scheduled = ((42161, (7, ("call", ("v", "cellar")))), call) ∷ [];
  winning = ((42161, (1, "cellar")), call) ∷ ((42161, (6, "cellar")), call) ∷ [];
  results = [];
  cellar_ids = (42161, "cellar" ∷ []) ∷ [];
  configurations = (42161, arbitrum) ∷ [];
  nonces = [];
  upgrades = [];
  params = record {
    enabled = true;
    ibc_channel = "channel-3";
    ibc_port = "transfer";
    gmp_account = "gmp";
    executor_account = "executor";
    timeout_duration = 60;
    cork_timeout_blocks = 5;
  };
}

voted-IsKeyed : IsKeyed texts voted
voted-IsKeyed = (refl, (refl, tt))

it_ends : (end_blocker texts 7 voted).0 ≡ ok tt
unfolding end_blocker end_chain for_each get_approved_scheduled_axelar_corks scheduled_for
    count_axelar_votes add_axelar_vote judge_axelar store_winning expire_winning winning_for sub_u64
    of_int mul_dec quo_dec Table.get Table.set Table.delete
it_ends = refl

it_is_late : leb (sub_u64 7 5) 7 ≡ true
unfolding sub_u64
it_is_late = refl

-- The cork that wins at height 7 is gone after the block.
end_blocker_expires_example : winning_at texts 42161 7 "cellar" (end_blocker texts 7 voted).1 ≡ (
    if any (λ g. 42161 == g.id) (values ⦃key = number⦄ voted.configurations)
    then none
    else winning_at texts 42161 7 "cellar" voted)
end_blocker_expires_example =
    end_blocker_expires texts 7 voted voted-IsKeyed it_ends 42161 7 "cellar" it_is_late

it_passes : (validate_axelar_packet texts "channel-3" "packet" voted).0 ≡ ok tt
unfolding validate_axelar_packet check_packet check_memo check_payload check_logic_call
    check_upgrade first_winning first_named
it_passes = refl

validate_axelar_packet-Consumes_example :
    Consumes texts packet voted (validate_axelar_packet texts "channel-3" "packet" voted).1
validate_axelar_packet-Consumes_example =
    validate_axelar_packet-Consumes texts "channel-3" "packet" packet voted refl refl refl refl
      it_passes

it_fails : (validate_axelar_packet texts "channel-3" "bad" voted).0 ≢ ok tt
unfolding validate_axelar_packet check_packet
it_fails e = cc

abbrev request : MsgScheduleAxelarCorkRequest
request = record { cork = some call; chain_id = 42161; block_height = 9; signer = "orchestrator" }

it_is_scheduled : (schedule_axelar_cork texts 5 request voted).0 ≡ ok "call"
unfolding schedule_axelar_cork Table.get
it_is_scheduled = refl

schedule_axelar_cork_ok_example :
    SchedulesAxelar texts 5 request voted "call" (schedule_axelar_cork texts 5 request voted).1
schedule_axelar_cork_ok_example =
    schedule_axelar_cork_ok texts 5 request voted "call" it_is_scheduled

-- A ledger that counts the payments, and a transfer that does nothing.
abbrev pub ibc : Ibc texts
ibc = record {
  Ledger = ℕ;
  send_to_module = λ signer token n. (ok tt, n + 1);
  transfer = λ msg w. (ok tt, w);
  pack_logic_call = λ target nonce deadline call. some call;
  marshal_memo = λ memo. some memo.payload;
  format_uint = λ n. "7";
  timeout_after = λ d. d;
}

abbrev pub token : Coin
token = record { denom = "usomm"; amount = pos 7 }

abbrev pub relay : MsgRelayAxelarCorkRequest
relay = record {
  signer = "anyone";
  token = token;
  fee = 7;
  chain_id = 42161;
  target_contract_address = "cellar";
}

abbrev pub world : World texts ibc
world = record { store = voted; ledger = 0 }

it_is_relayed : (relay_cork texts ibc relay world).0 ≡ ok tt
unfolding relay_cork first_winning Table.get Table.set int64
it_is_relayed = refl

relay_cork-RelaysCork_example : RelaysCork texts ibc relay world (relay_cork texts ibc relay world)
relay_cork-RelaysCork_example = relay_cork-RelaysCork texts ibc relay world it_is_relayed

abbrev upgrade : MsgRelayAxelarProxyUpgradeRequest
upgrade = record { signer = "anyone"; token = token; fee = 7; chain_id = 42161 }

abbrev upgradable : World texts ibc
upgradable = record {
  store = record voted {
    upgrades =
        (
          42161,
          record { chain_id = 42161; payload = "upgrade"; executable_height_threshold = pos 5 },
        )
        ∷ [];
  };
  ledger = 0;
}

it_is_upgraded : (relay_proxy_upgrade texts ibc (pos 7) upgrade upgradable).0 ≡ ok tt
unfolding relay_proxy_upgrade Table.get Table.delete
it_is_upgraded = refl

relay_proxy_upgrade-RelaysUpgrade_example :
    RelaysUpgrade texts ibc
      (pos 7)
      upgrade
      upgradable
      (relay_proxy_upgrade texts ibc (pos 7) upgrade upgradable).1
relay_proxy_upgrade-RelaysUpgrade_example =
    relay_proxy_upgrade-RelaysUpgrade texts ibc (pos 7) upgrade upgradable it_is_upgraded
