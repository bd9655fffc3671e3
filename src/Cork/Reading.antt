-- ===== src/Cork/Reading.antt =====
-- What x/cork reads out of its store: the lists of x/cork/keeper/keeper.go and the answers of
-- query_server.go. A request that is nil is `none`.
pub mod Heights
use sommelier.Base.{
  ℕ, String, Bool, Option, none, some, List, [], ◌∷◌, map, ◌==◌, string_eq, if◌then◌else◌,
}
use sommelier.Base.Exec.{Exec, foreign, ◌>>=◌, ◌>>◌, gets, or_raise, raise, wrapped}
use sommelier.Base.Table
use sommelier.Base.Table.{Table, values}
use sommelier.Base.Table.Ordered.{text_key}
use sommelier.Base.Rising.{new_heights}
use sommelier.Queries.{Code, Query, answer}
use sommelier.Cork.Types.{ScheduledKey, Bridge, Cork, CorkResult, Corks, get_cellar_ids}
use sommelier.Cork.Tally.{scheduled_at}
use sommelier.Cork.Validate.{Params, ScheduledCork, Readers}

module _ {Address : Type 0} where
  -- The entries of an id, of the loop of `GetScheduledCorksByID`.
  unfoldable pub scheduled_under :
      String → List (ScheduledKey Address × Cork) → List (ScheduledKey Address × Cork)
  scheduled_under id [] = []
  scheduled_under id ((k, c) ∷ t) =
      let rest = scheduled_under id t in if k.1.0 == id then (k, c) ∷ rest else rest

  abbrev pub get_cork_result : String → Corks Address → Option CorkResult
  get_cork_result id s = Table.get id s.results

  abbrev pub delete_cork_result : String → Corks Address → Corks Address
  delete_cork_result id s = record s { results = Table.delete id s.results }

  abbrev pub get_cork_results : Corks Address → List CorkResult
  get_cork_results s = values s.results

  abbrev pub heights_of : List (ScheduledKey Address × Cork) → List ℕ
  heights_of [] = []
  heights_of ((k, _) ∷ t) = k.0 ∷ heights_of t

  unfoldable pub get_scheduled_block_heights : Corks Address → List ℕ
  unfolding new_heights
  get_scheduled_block_heights s = new_heights 0 (heights_of s.scheduled)

module _ {Decimal : Type 0} (b : Bridge Decimal) (r : Readers) where
  -- An entry with its validator as a text.
  abbrev pub scheduled_of : ScheduledKey b.Address × Cork → ScheduledCork
  scheduled_of e = record {
    cork = e.1;
    block_height = e.0.0;
    validator = r.val_text e.0.1.1.0;
    id = e.0.1.0;
  }

  abbrev pub get_scheduled_corks : Corks b.Address → List ScheduledCork
  get_scheduled_corks s = map scheduled_of s.scheduled

  abbrev pub get_scheduled_corks_by_block_height : ℕ → Corks b.Address → List ScheduledCork
  get_scheduled_corks_by_block_height height s = map scheduled_of (scheduled_at height s.scheduled)

  abbrev pub get_scheduled_corks_by_id : String → Corks b.Address → List ScheduledCork
  get_scheduled_corks_by_id id s = map scheduled_of (scheduled_under id s.scheduled)

  abbrev pub query_cellar_ids : Option (Unit {0}) → Query (Corks b.Address) (List String)
  query_cellar_ids request = answer request (λ s. map b.address_text (get_cellar_ids b s))

  abbrev pub query_scheduled_corks :
      Option (Unit {0}) → Query (Corks b.Address) (List ScheduledCork)
  query_scheduled_corks request = answer request get_scheduled_corks

  abbrev pub query_scheduled_block_heights : Option (Unit {0}) → Query (Corks b.Address) (List ℕ)
  query_scheduled_block_heights request = answer request get_scheduled_block_heights

  abbrev pub query_cork_results : Option (Unit {0}) → Query (Corks b.Address) (List CorkResult)
  query_cork_results request = answer request get_cork_results

  abbrev pub query_scheduled_corks_by_block_height :
      Option ℕ → Query (Corks b.Address) (List ScheduledCork)
  query_scheduled_corks_by_block_height request = do
    height ← or_raise request (wrapped Code.invalid_argument)
    gets (get_scheduled_corks_by_block_height height)

  unfoldable pub query_scheduled_corks_by_id :
      Option String → Query (Corks b.Address) (List ScheduledCork)
  unfolding scheduled_under
  query_scheduled_corks_by_id request = do
    text ← or_raise request (wrapped Code.invalid_argument)
    id ← or_raise (r.decode_hex text) (wrapped Code.invalid_argument)
    gets (get_scheduled_corks_by_id id)

  unfoldable pub query_cork_result : Option String → Query (Corks b.Address) CorkResult
  query_cork_result request = do
    text ← or_raise request (wrapped Code.invalid_argument)
    id ← or_raise (r.decode_hex text) (wrapped Code.invalid_argument)
    found ← gets (get_cork_result id)
    or_raise found (wrapped Code.not_found)
