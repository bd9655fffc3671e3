-- ===== src/CellarFees/Counters.antt =====
-- The fee accrual counters: x/cellarfees/types/cellarfees.go. `sort.Sort` is the standard library's;
-- any sort gives the same result where the denoms differ.
pub mod Map
use sommelier.Base.{
  ℕ, ◌+◌, String, Bool, Option, none, some, List, [], ◌∷◌, ◌++◌, ◌==◌, string_eq, if◌then◌else◌,
}
use sommelier.Base.Word.{add_u64}
use sommelier.Base.Table.Ordered.{before_text}
use sommelier.CellarFees.Types.{FeeAccrualCounter, Counters}

-- `Less`
abbrev pub less : FeeAccrualCounter → FeeAccrualCounter → Bool
less a b = before_text a.denom b.denom

insert_sorted : FeeAccrualCounter → Counters → Counters
insert_sorted c [] = c ∷ []
insert_sorted c (d ∷ ds) = if less d c then d ∷ insert_sorted c ds else c ∷ d ∷ ds

-- `sort.Sort(f)`
unfoldable pub sort : Counters → Counters
unfolding insert_sorted
sort [] = []
sort (c ∷ cs) = insert_sorted c (sort cs)

abbrev pub counter : String → ℕ → FeeAccrualCounter
counter denom count = record { denom = denom; count = count }

-- `insertCounter`
unfoldable pub insert_counter : String → ℕ → Counters → Counters
unfolding sort
insert_counter denom count cs = sort (cs ++ counter denom count ∷ [])

-- The loop of both methods: the first counter of the denom is changed, if there is one.
unfoldable pub change_first : (ℕ → ℕ) → String → Counters → Option Counters
change_first f denom [] = none
change_first f denom (c ∷ cs) =
    let rest = change_first f denom cs in
    if c.denom == denom
    then some (counter c.denom (f c.count) ∷ cs)
    else elim rest [ none ↦ none | some ds ↦ some (c ∷ ds) ]

-- `IncrementCounter`, without the count that it returns
unfoldable pub increment_counter : String → Counters → Counters
unfolding change_first insert_counter add_u64
increment_counter denom cs = elim (change_first (λ n. add_u64 n 1) denom cs) [
  | none ↦ insert_counter denom 1 cs
  | some ds ↦ ds
]

-- `ResetCounter`
unfoldable pub reset_counter : String → Counters → Counters
unfolding change_first insert_counter
reset_counter denom cs = elim (change_first (λ _. 0) denom cs) [
  | none ↦ insert_counter denom 0 cs
  | some ds ↦ ds
]
