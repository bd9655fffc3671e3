-- ===== src/Cork/Tests.antt =====
-- The theorems about the corks, each at a bridge whose addresses are texts.
mod Runs
use sommelier.Base.{
  ◌+◌, ◌%◌, ◌^◌, ◌<◌, ◌≡◌, ◌↔◌, refl, String, Bool, true, not, ◌&&◌, ◌||◌, none, some, [], ◌∷◌,
  arith, ltb, ◌==◌, nat_eq, string_eq, if◌then◌else◌,
}
use sommelier.Base.Int.{ℤ, pos}
use sommelier.Base.Exec.{ok, err, sentinel}
use sommelier.Base.Table
use sommelier.Base.Table.Pair.{number, pair}
use sommelier.Base.Table.Ordered.{text_key}
use sommelier.Sdk.Scaled.{scaled, of_int, mul_dec, quo_dec}
use sommelier.Cork.Types.{Bridge, Cork, Corks, Error, ScheduledKey, id_hash, has_cellar_id}
use sommelier.Cork.Tally.{add_vote, get_approved_scheduled_corks, scheduled_at, count_votes, judge}
use sommelier.Cork.Tally.Powers.{total, total-add_vote}
use sommelier.Cork.Tally.Clearing.{scheduled_cork, get_approved_scheduled_corks-clears}
use sommelier.Cork.Scheduling.{MsgScheduleCorkRequest, schedule_cork}
use sommelier.Cork.Scheduling.Effects.{Schedules, schedule_cork-Schedules, schedule_cork_rejects}
use sommelier.Cork.Cellars.{CellarWorld, names, remove_managed_cellars, add_managed_cellars}
use sommelier.Cork.Cellars.Managed.{remove_managed_cellars-has, add_managed_cellars-has}

-- Two validators, of which "v" has 9 of 10.
abbrev pub texts : Bridge ℤ
texts = record {
  Address = String;
  address_eq = string_eq;
  hex_to_address = λ s. s;
  address_text = λ s. s;
  is_hex_address = λ s. true;
  scheduled_key = pair number (pair text_key (pair text_key text_key));
  keccak = λ height chain address call. call;
  power = λ val. if val == "v" then some 9 else if val == "u" then some 1 else none;
  total_power = pos 10;
  text = λ d. "";
  orchestrator_validator = λ s. if s == "orchestrator" then some "v" else none;
}

abbrev pub call_a : Cork
call_a = record { encoded_contract_call = "a"; target_contract_address = "cellar" }

abbrev pub call_b : Cork
call_b = record { encoded_contract_call = "b"; target_contract_address = "cellar" }

abbrev pub voted : Corks String
voted = record {
  scheduled =
      ((7, ("a", ("u", "cellar"))), call_a)
      ∷ ((7, ("a", ("v", "cellar"))), call_a)
      ∷ ((8, ("b", ("v", "cellar"))), call_b)
      ∷ [];
  results = [];
  cellar_ids = "cellar" ∷ "other" ∷ [];
  invalidation_nonce = 0;
  counts = ("u", 1) ∷ ("v", 2) ∷ [];
}

it_is_approved : (get_approved_scheduled_corks texts 7 voted).0 ≡ ok (call_a ∷ [])
unfolding get_approved_scheduled_corks scheduled_at count_votes add_vote judge of_int mul_dec
    quo_dec Table.get Table.set Table.delete
it_is_approved = refl

get_approved_scheduled_corks-clears_example :
    scheduled_cork texts (7, ("a", ("v", "cellar"))) (get_approved_scheduled_corks texts 7 voted).1
    ≡ none
get_approved_scheduled_corks-clears_example =
    get_approved_scheduled_corks-clears texts 7 (call_a ∷ []) voted (7, ("a", ("v", "cellar")))
      it_is_approved

abbrev request : MsgScheduleCorkRequest
request = record { cork = call_b; block_height = 9; signer = "orchestrator" }

it_is_scheduled : (schedule_cork texts 5 request voted).0 ≡ ok "b"
unfolding schedule_cork
it_is_scheduled = refl

schedule_cork-Schedules_example :
    (signer : String) × (val : String) × (some "orchestrator" ≡ some signer)
    × (texts.orchestrator_validator signer ≡ some val)
    × (has_cellar_id texts "cellar" voted ≡ true)
    × (5 < 9)
    × ("b" ≡ id_hash texts 9 call_b)
    × Schedules texts 5 request voted val (schedule_cork texts 5 request voted).1
    × (scheduled_cork texts (9, ("b", (val, "cellar"))) (schedule_cork texts 5 request voted).1
        ≡ some call_b)
schedule_cork-Schedules_example = schedule_cork-Schedules texts 5 request voted "b" it_is_scheduled

abbrev managed : CellarWorld String
managed = record { corks = voted; publishers = "domain" ∷ []; default_subscriptions = [] }

it_is_added : (add_managed_cellars texts (λ ids. ids) "domain" ("new" ∷ []) managed).0 ≡ ok tt
unfolding add_managed_cellars
it_is_added = refl

add_managed_cellars-has_example :
    has_cellar_id texts "new"
      (add_managed_cellars texts (λ ids. ids) "domain" ("new" ∷ []) managed).1.corks
    ≡ (has_cellar_id texts "new" voted || names texts ("new" ∷ []) "new")
add_managed_cellars-has_example =
    add_managed_cellars-has texts (λ a. refl) (λ ids. ids) (λ p ids. refl) "domain" ("new" ∷ [])
      managed "new" it_is_added
