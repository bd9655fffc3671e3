-- ===== src/Cork/Tests/Runs.antt =====
-- The theorems about the tally, the chain and the genesis of x/cork, at the bridge and the store of the
-- parent module.
use sommelier.Base.{
  ◌^◌, ◌<◌, ◌≤◌, ◌≡◌, ◌≢◌, ℕ, refl, String, true, ◌&&◌, ◌==◌, if◌then◌else◌, none, some, List, [],
  ◌∷◌, any, arith, ltb, nat_eq, string_eq,
}
use sommelier.Base.Int.{ℤ, pos}
use sommelier.Base.Exec.{ok, panic}
use sommelier.Base.Table
use sommelier.Base.Table.Ordered.{KeyLaws, text_key}
use sommelier.Base.Table.Text.{text_laws}
use sommelier.Base.Table.Pair.{number, pair}
use sommelier.Base.Table.Size.{number-KeyLaws, pair-KeyLaws}
use sommelier.Base.Rising.{Climbing, is_among}
use sommelier.Sdk.Scaled.{scaled, of_int, mul_dec, quo_dec}
use sommelier.Cork.Types.{Cork, Corks, ScheduledKey, equals}
use sommelier.Cork.Tally.{
  scheduled_at, add_vote, count_votes, judge, get_approved_scheduled_corks, end_blocker,
  submit_contract_calls,
}
use sommelier.Cork.Tally.Counting.{is_backed, support}
use sommelier.Cork.Tally.Approval.{Known, is_enough, get_approved_scheduled_corks-exact}
use sommelier.Cork.Invariant.{IsCurrent}
use sommelier.Cork.Invariant.Chain.{here, next, schedules, ends_block, Reach-IsCurrent}
use sommelier.Cork.Validate.{Readers, validate_params, validate_genesis}
use sommelier.Cork.Genesis.{CorkModule, init_genesis, export_genesis}
use sommelier.Cork.Genesis.Roundtrip.{init_genesis-export_genesis, export_genesis-fails}
use sommelier.Cork.Reading.{heights_of, get_scheduled_block_heights}
use sommelier.Cork.Reading.Heights.{get_scheduled_block_heights-lists}
use sommelier.Cork.Scheduling.{MsgScheduleCorkRequest, schedule_cork}
use sommelier.Cork.Tests.{texts, call_a, call_b, voted}

-- The share of a power in 10.
abbrev share_of : ℕ → ℤ
share_of p = elim (quo_dec (of_int (pos p)) (of_int (pos 10))) [ none ↦ pos 0 | some d ↦ d ]

share_divides : (p : ℕ) → quo_dec (of_int (pos p)) (of_int (pos 10)) ≡ some (share_of p)
unfolding of_int quo_dec
share_divides p = refl

voters-Known : Known texts (scheduled_at 7 voted.scheduled)
unfolding scheduled_at
voters-Known = (λ e. cc, (λ e. cc, tt))

get_approved_scheduled_corks-exact_example :
    (approved : List Cork) × ((get_approved_scheduled_corks texts 7 voted).0 ≡ ok approved)
    × ((x : Cork)
        → support texts x (scheduled_at 7 voted.scheduled) < 2 ^ 64
        → any (λ d. equals texts d x) approved ≡ (
            is_backed texts x (scheduled_at 7 voted.scheduled)
            && is_enough texts share_of share_divides
                (support texts x (scheduled_at 7 voted.scheduled))))
get_approved_scheduled_corks-exact_example =
    get_approved_scheduled_corks-exact texts share_of share_divides 7 voted voters-Known

scheduled_laws : KeyLaws (ScheduledKey String) ⦃key = texts.scheduled_key⦄
scheduled_laws = pair-KeyLaws number (pair text_key (pair text_key text_key)) number-KeyLaws (
    pair-KeyLaws text_key (pair text_key text_key) text_laws
      (pair-KeyLaws text_key text_key text_laws text_laws))

voted-IsCurrent : IsCurrent texts 7 voted
voted-IsCurrent = record {
  scheduled_at_keys =
      ((omega arith, refl, refl), ((omega arith, refl, refl), ((omega arith, refl, refl), tt)));
  scheduled_ordered = ((refl, (refl, tt)), ((refl, tt), (tt, tt)));
  results_at_ids = tt;
  results_ordered = tt;
}

abbrev request : MsgScheduleCorkRequest
request = record { cork = call_b; block_height = 9; signer = "orchestrator" }

abbrev asked : Corks String
asked = (schedule_cork texts 7 request voted).1

it_ends : (end_blocker texts 7 asked).0 ≡ ok tt
unfolding schedule_cork end_blocker get_approved_scheduled_corks submit_contract_calls scheduled_at
    count_votes add_vote judge of_int mul_dec quo_dec Table.get Table.set Table.delete
it_ends = refl

-- A call of `ScheduleCork`, and the end of its block.
Reach-IsCurrent_example : IsCurrent texts 8 (end_blocker texts 7 asked).1
Reach-IsCurrent_example =
    Reach-IsCurrent texts (λ ids. ids) scheduled_laws voted-IsCurrent
      (next (next here (schedules 7 voted request)) (ends_block 7 asked it_ends))

heights_first : (k j : ScheduledKey String) → texts.scheduled_key.before k j ≡ true → k.0 ≤ j.0
heights_first k j h = ground (arith, h)

get_scheduled_block_heights-lists_example :
    Climbing 0 (get_scheduled_block_heights voted)
    × ((n : ℕ)
        → is_among n (get_scheduled_block_heights voted)
          ≡ (is_among n (heights_of voted.scheduled) && ltb 0 n))
get_scheduled_block_heights-lists_example =
    get_scheduled_block_heights-lists texts heights_first voted voted-IsCurrent.scheduled_ordered

-- A validator's text has the bech32 prefix, which is not hexadecimal.
-- The 32 bytes of a hash.
abbrev hash : String
hash = "0123456789abcdef0123456789abcdef"

abbrev readers : Readers
readers = record {
  val_text = λ v. v;
  val_from_bech32 = λ t. some t;
  val_from_hex = λ t. none;
  byte_length = λ id. if id == "" then 0 else if id == hash then 32 else 64;
  decode_hex = λ t. some t;
  is_dec = λ t. true;
  is_json = λ t. true;
  is_domain = λ t. true;
}

abbrev module_of : Corks String → CorkModule String ℤ
module_of s = record {
  params = record { vote_threshold = pos 0; max_corks_per_validator = 1000 };
  corks = s;
}

-- A store after a tally, with its result.
abbrev tallied : Corks String
tallied = record voted {
  scheduled = [];
  results =
      (
        "a",
        record { cork = call_a; block_height = 7; approved = true; approval_percentage = "100" },
      )
      ∷ [];
}

abbrev bare : Corks String
bare = record { scheduled = []; results = []; cellar_ids = []; invalidation_nonce = 0; counts = [] }

it_is_valid : validate_params (module_of tallied).params ≡ none
unfolding validate_params of_int
it_is_valid = refl

init_genesis-export_genesis_example :
    init_genesis texts readers (export_genesis texts readers (module_of tallied)) (module_of bare)
    ≡ (ok tt, module_of (record tallied { counts = [] }))
init_genesis-export_genesis_example =
    init_genesis-export_genesis texts readers (module_of tallied) (module_of bare) refl it_is_valid
      (refl, tt) (tt, tt) (refl, (refl, tt)) refl

-- A cork that is scheduled under a hash.
abbrev hashed : Corks String
hashed = record bare { scheduled = ((7, (hash, ("v", "cellar"))), call_a) ∷ [] }

export_genesis-fails_example :
    (validate_genesis texts readers (export_genesis texts readers (module_of hashed)) ≢ none)
    × ((init_genesis texts readers
          (export_genesis texts readers (module_of hashed))
          (module_of bare)).0
        ≡ panic)
export_genesis-fails_example =
    export_genesis-fails texts readers (module_of hashed) (module_of bare) (λ v. refl) (refl, tt)
      (λ e. cc)
