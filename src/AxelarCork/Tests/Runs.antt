-- ===== src/AxelarCork/Tests/Runs.antt =====
-- Packets one after another, the genesis, and the proposals on cellars and on the community pool, at the
-- chain of the parent module.
use text.Mathlib.TextEquality.{eq_iff}
use sommelier.Base.{
  ◌≤◌, ℕ, ◌≡◌, ◌≢◌, refl, String, Bool, true, false, ◌&&◌, ◌||◌, none, some, List, [], ◌∷◌, arith,
  length, ◌==◌, nat_eq, string_eq,
}
use sommelier.Base.Exec.{ok, panic, for_each}
use sommelier.Base.Table
use sommelier.Base.Table.{values}
use sommelier.Base.Table.Ordered.{KeyLaws, text_key}
use sommelier.Base.Table.Text.{text_laws}
use sommelier.Base.Table.Pair.{number, pair}
use sommelier.Base.Table.Size.{number-KeyLaws, pair-KeyLaws}
use sommelier.Sdk.Scaled.{scaled}
use sommelier.Cellars.{names, add_cellars}
use sommelier.PubSub.Types.{Publisher}
use sommelier.PubSub.Store.{get_publisher, set_publisher}
use sommelier.PubSub.Tests.{accounts}
use sommelier.PubSub.Genesis.Signing.{bare}
use sommelier.AxelarCork.Types.{
  ChainConfiguration, PacketData, State, winning_key, first_winning, first_named, has_cellar_id,
  get_chain_configuration_by_id,
}
use sommelier.AxelarCork.Packet.{
  validate_axelar_packet, check_packet, check_memo, check_payload, check_logic_call, check_upgrade,
}
use sommelier.AxelarCork.Validate.{AxelarReaders, CellarIdSet, validate_cellar_id_set}
use sommelier.AxelarCork.Validate.Requests.{AxelarCommunityPoolSpendProposal}
use sommelier.AxelarCork.Genesis.{export_genesis, init_genesis}
use sommelier.AxelarCork.Genesis.Exporting.{unconfigured, export_genesis-never_loads}
use sommelier.AxelarCork.Cellars.{
  AddAxelarManagedCellarIdsProposal, World, handle_add_managed_cellars,
}
use sommelier.AxelarCork.Cellars.Managed.{handle_add_managed_cellars-has}
use sommelier.AxelarCork.Spend.{Pool, spend_community_pool}
use sommelier.AxelarCork.Spend.Spending.{Spends, spend_community_pool-Spends}
use sommelier.AxelarCork.Handler.{Tools, Whole, msg_relay, new_handler}
use sommelier.AxelarCork.Invariant.Handling.{TransferKeeps}
use sommelier.AxelarCork.Invariant.Chain.{here, next, handles, ends_block, Reach-IsFiled}
use sommelier.AxelarCork.Tally.{
  scheduled_for, winning_for, add_axelar_vote, count_axelar_votes, judge_axelar,
  get_approved_scheduled_axelar_corks, store_winning, expire_winning, end_chain, end_blocker,
}
use sommelier.AxelarCork.Relay.{relay_cork}
use sommelier.Base.Word.{sub_u64, int64}
use sommelier.Sdk.Scaled.{of_int, mul_dec, quo_dec}
use sommelier.AxelarCork.Handler.Replay.{IsFiled, approvals, passing_packets-le-approvals}
use sommelier.AxelarCork.Relay
use sommelier.AxelarCork.Tests.{relay, texts, packet, voted, ibc, token}

winning_laws : KeyLaws (ℕ × (ℕ × String)) ⦃key = winning_key texts⦄
winning_laws =
    pair-KeyLaws number (pair number text_key) number-KeyLaws
      (pair-KeyLaws number text_key number-KeyLaws text_laws)

voted-IsFiled : IsFiled texts voted
voted-IsFiled = record {
  keyed = (refl, (refl, tt));
  winning_ordered = ((refl, tt), (tt, tt));
  upgrades_ordered = tt;
}

abbrev after_one : State texts
after_one = (validate_axelar_packet texts "channel-3" "packet" voted).1

two_pass :
    ((validate_axelar_packet texts "channel-3" "packet" voted).0 ≡ ok tt)
    × ((validate_axelar_packet texts "channel-3" "packet" after_one).0 ≡ ok tt)
    × (after_one.params ≡ voted.params)
unfolding validate_axelar_packet check_packet check_memo check_payload check_logic_call
    check_upgrade first_winning first_named Table.delete
two_pass = (refl, refl, refl)

abbrev packets : List (String × PacketData)
packets = ("packet", packet) ∷ ("packet", packet) ∷ []

-- The same packet passes twice, since the store holds two winning corks of its call.
passing_packets-le-approvals_example : length packets ≤ approvals texts voted
unfolding validate_axelar_packet check_packet check_memo check_payload check_logic_call
    check_upgrade first_winning first_named Table.delete
passing_packets-le-approvals_example =
    passing_packets-le-approvals texts winning_laws "channel-3" packets voted voted-IsFiled
      (refl, refl, refl, refl, two_pass.0, (refl, refl, refl, refl, two_pass.1, tt))

abbrev readers : AxelarReaders
readers = record {
  readers = record {
    val_text = λ v. v;
    val_from_bech32 = λ t. some t;
    val_from_hex = λ t. none;
    byte_length = λ id. 32;
    decode_hex = λ t. some t;
    is_dec = λ t. true;
    is_json = λ t. true;
    is_domain = λ t. true;
  };
  is_channel = λ t. true;
  is_port = λ t. true;
  valid_coins = λ cs. true;
  encode_hex = λ t. t;
}

export_genesis-never_loads_example :
    (values ⦃key = number⦄ voted.configurations ≢ [] → export_genesis texts readers voted ≡ none)
    × (values ⦃key = number⦄ voted.configurations ≡ []
        → ((export_genesis texts readers voted ≡ some (unconfigured texts readers voted))
            × ((found : Bool) (t : State texts)
                → (init_genesis texts readers found (unconfigured texts readers voted) t).0
                  ≡ panic)))
export_genesis-never_loads_example = export_genesis-never_loads texts readers voted

abbrev more_ids : CellarIdSet
more_ids = record { chain_id = 42161; ids = "cellar" ∷ "new" ∷ [] }

abbrev addition : AddAxelarManagedCellarIdsProposal
addition = record { chain_id = 42161; cellar_ids = some more_ids; publisher_domain = "example.com" }

abbrev same_texts : List String → List String
same_texts ids = ids

abbrev published : World texts readers accounts (λ n. "42161") same_texts
published = record {
  store = voted;
  pubsub =
      set_publisher accounts (record { address = "p"; ca_cert = "cert"; domain = "example.com" })
        (bare accounts);
}

it_is_added :
    (handle_add_managed_cellars texts readers accounts
      (λ n. "42161")
      same_texts
      addition
      published).0
    ≡ ok tt
unfolding handle_add_managed_cellars validate_cellar_id_set add_cellars Table.get Table.set
it_is_added = refl

handle_add_managed_cellars-has_example :
    (g : ChainConfiguration) × (d : Publisher) × (get_chain_configuration_by_id texts 42161 voted
      ≡ some g)
    × (get_publisher accounts addition.publisher_domain published.pubsub ≡ some d)
    × ((chain : ℕ) (a : String)
        → has_cellar_id texts chain a
            (handle_add_managed_cellars texts readers accounts
              (λ n. "42161")
              same_texts
              addition
              published).1.store
          ≡ (has_cellar_id texts chain a voted
              || chain == g.id && names string_eq (λ s. s) more_ids.ids a))
handle_add_managed_cellars-has_example =
    handle_add_managed_cellars-has texts readers accounts (λ n. "42161") same_texts
      (λ a. ground (arith, eq_iff a a)) (λ p ids. refl) addition more_ids published refl it_is_added

-- A pool of one number.
abbrev pool : Pool texts ibc
pool = record {
  DecCoins = ℕ;
  get_fee_pool = λ l. l;
  set_fee_pool = λ c l. c;
  dec_coins = λ c. 7;
  safe_sub = λ a b. (3, false);
  find_coin = λ denom cs. some token;
  add_coin = λ c d. some token;
  distribution_account = "distribution";
}

abbrev spend : AxelarCommunityPoolSpendProposal
spend = record {
  title = "title";
  description = "description";
  recipient = "someone";
  chain_id = 42161;
  amount = token;
}

abbrev rich : Relay.World texts ibc
rich = record { store = voted; ledger = 10 }

it_is_spent : (spend_community_pool texts ibc pool spend rich).0 ≡ ok tt
unfolding spend_community_pool Table.get
it_is_spent = refl

spend_community_pool-Spends_example :
    Spends texts ibc pool spend rich (spend_community_pool texts ibc pool spend rich).1
spend_community_pool-Spends_example =
    spend_community_pool-Spends texts ibc pool spend rich it_is_spent

abbrev tools : Tools
tools = record {
  decimal = λ n. "42161";
  sort_texts = same_texts;
  encode_upgrade_args = λ proxy targets. some proxy;
}

transfers_keep : TransferKeeps texts ibc
transfers_keep t = record { at = λ w f. f }

abbrev all_start : Whole texts readers accounts ibc pool tools
all_start = record { store = voted; pubsub = published.pubsub; ledger = 10 }

-- After a call of `RelayCork`.
abbrev all_relayed : Whole texts readers accounts ibc pool tools
all_relayed = (new_handler texts readers accounts ibc pool tools 7 (msg_relay relay) all_start).1

it_ends : (end_blocker texts 7 all_relayed.store).0 ≡ ok tt
unfolding new_handler relay_cork first_winning int64 end_blocker end_chain for_each
    get_approved_scheduled_axelar_corks scheduled_for count_axelar_votes add_axelar_vote
    judge_axelar store_winning expire_winning winning_for sub_u64 of_int mul_dec quo_dec Table.get
    Table.set Table.delete
it_ends = refl

Reach-IsFiled_example : IsFiled texts (end_blocker texts 7 all_relayed.store).1
Reach-IsFiled_example =
    Reach-IsFiled texts readers accounts ibc pool tools winning_laws transfers_keep {h = 7}
      {w = all_start} {i = 8}
      {v = record all_relayed { store = (end_blocker texts 7 all_relayed.store).1 }} voted-IsFiled
      (next (next here (handles 7 all_start (msg_relay relay))) (ends_block 7 all_relayed it_ends))
