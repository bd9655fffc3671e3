-- ===== src/CellarFees/Counters/Map.antt =====
-- The sorted slice of counters implements a finite map from denoms to counts.
use sommelier.Base.{
  ℕ, ◌≡◌, refl, String, true, false, Option, none, some, [], ◌∷◌, ◌++◌, arith, ◌==◌, string_eq, ap,
  ◌∙◌, Bool-cases, inl, inr,
}
use mathlib.Core.Path.{subst⁻¹}
use text.Mathlib.TextEquality.{eq_iff}
use sommelier.Base.Word.{add_u64}
use sommelier.Base.Table
use sommelier.Base.Table.{Table, Entries, get-set, same}
use sommelier.Base.Table.Ordered.{
  Ordered, Above, text_key, before_text, set-Ordered, Above-trans, get-Above,
}
use sommelier.Base.Table.Text.{text_laws}
use sommelier.CellarFees.Types.{FeeAccrualCounter, Counters}
use sommelier.CellarFees.Counters.{
  counter, less, insert_sorted, sort, insert_counter, change_first, increment_counter,
  reset_counter,
}

-- The map that a slice stands for.
abbrev pub view : Counters → Table String ℕ
view [] = []
view (c ∷ cs) = (c.denom, c.count) ∷ view cs

-- The slice ascends by denom, so that no denom occurs twice.
abbrev pub IsSorted : Counters → Type 0
IsSorted cs = Ordered (view cs)

insert_sorted-first :
    (c : FeeAccrualCounter) (cs : Counters) → Above c.denom (view cs) → insert_sorted c cs ≡ c ∷ cs
unfolding insert_sorted
insert_sorted-first c [] h = refl
insert_sorted-first c (d ∷ cs) h = ground (
  arith,
  text_laws.before_trans c.denom d.denom c.denom h.0,
  text_laws.before_differs c.denom c.denom,
  eq_iff c.denom c.denom,
)

insert_sorted-Above :
    (d : String) (c : FeeAccrualCounter) (cs : Counters)
    → before_text d c.denom ≡ true
    → Above d (view cs)
    → Above d (view (insert_sorted c cs))
unfolding insert_sorted
insert_sorted-Above d c [] e h = (e, tt)
insert_sorted-Above d c (x ∷ cs) e h = ground (arith, insert_sorted-Above d c cs e h.1)

pub sort-sorted : (cs : Counters) → IsSorted cs → sort cs ≡ cs
unfolding sort
sort-sorted [] s = refl
sort-sorted (c ∷ cs) s = ap (insert_sorted c) (sort-sorted cs s.1) ∙ insert_sorted-first c cs s.0

-- Sorting a new denom into a sorted slice is a write to the map.
view-insert_sorted :
    (denom : String) (n : ℕ) (cs : Counters)
    → Table.get denom (view cs) ≡ none
    → view (insert_sorted (counter denom n) cs) ≡ Table.set denom n (view cs)
unfolding insert_sorted Table.get Table.set
view-insert_sorted denom n [] h = refl
view-insert_sorted denom n (c ∷ cs) h = ground (
  arith,
  view-insert_sorted denom n cs,
  eq_iff denom c.denom,
  text_laws.before_total denom c.denom,
  text_laws.before_trans denom c.denom denom,
  text_laws.before_differs denom denom,
  eq_iff denom denom,
)

-- `append` and a sort put a new denom in its place.
sort-append :
    (denom : String) (n : ℕ) (cs : Counters)
    → IsSorted cs
    → Table.get denom (view cs) ≡ none
    → sort (cs ++ counter denom n ∷ []) ≡ insert_sorted (counter denom n) cs
unfolding sort insert_sorted Table.get
sort-append denom n [] s h = refl
sort-append denom n (c ∷ cs) s h =
    let x = counter denom n in
    elim (Bool-cases (less c x)) [
      | inl e ↦ ground (
        arith,
        sort-append denom n cs s.1,
        insert_sorted-first c (insert_sorted x cs) (insert_sorted-Above c.denom x cs e s.0),
      )
      | inr e ↦
          let below =
            text_laws.before_total c.denom denom
              (ground (arith, eq_iff c.denom denom, eq_iff denom c.denom, eq_iff denom denom))
              (ground arith) in
          ground (
            arith,
            below,
            sort-append denom n cs s.1,
            insert_sorted-first x cs (Above-trans text_laws denom c.denom (view cs) below s.0),
            insert_sorted-first c cs s.0,
          )
    ]

-- What the loop over the counters leaves, in terms of the map.
abbrev Changed : (ℕ → ℕ) → String → Counters → Option Counters → Type 0
Changed f denom cs none = Table.get denom (view cs) ≡ none
Changed f denom cs (some ds) =
    (n : ℕ) × (Table.get denom (view cs) ≡ some n) × (view ds ≡ Table.set denom (f n) (view cs))

-- A change further on, past a counter of another denom.
later-Changed :
    (f : ℕ → ℕ) (denom : String) (c : FeeAccrualCounter) (cs : Counters) (r : Option Counters)
    → IsSorted (c ∷ cs)
    → (c.denom == denom) ≡ false
    → Changed f denom cs r
    → Changed f denom (c ∷ cs) (elim r [ none ↦ none | some ds ↦ some (c ∷ ds) ])
unfolding Table.get Table.set
later-Changed f denom c cs none s e h = ground (arith, eq_iff c.denom denom, eq_iff denom c.denom)
later-Changed f denom c cs (some ds) s e (n, found, same) = (
  n,
  ground (arith, eq_iff c.denom denom, eq_iff denom c.denom),
  ground (
    arith,
    eq_iff c.denom denom,
    eq_iff denom c.denom,
    get-Above text_laws denom (view cs),
    Above-trans text_laws denom c.denom (view cs),
    s.0,
    same,
  ),
)

change_first-Changed :
    (f : ℕ → ℕ) (denom : String) (cs : Counters)
    → IsSorted cs
    → Changed f denom cs (change_first f denom cs)
unfolding change_first Table.get Table.set
change_first-Changed f denom [] s = refl
change_first-Changed f denom (c ∷ cs) s =
    let rest = change_first-Changed f denom cs s.1 in
    elim (Bool-cases (c.denom == denom)) [
      | inl e ↦ rw e (
        c.count,
        ground (arith, eq_iff c.denom denom, eq_iff denom c.denom),
        ground (arith, eq_iff c.denom denom, eq_iff denom c.denom),
      )
      | inr e ↦ rw e (later-Changed f denom c cs (change_first f denom cs) s e rest)
    ]

-- What a method leaves: the change where the denom is counted, or else a new count.
counted :
    (f : ℕ → ℕ) (new : ℕ) (denom : String) (cs : Counters)
    → IsSorted cs
    → view (elim (change_first f denom cs) [ none ↦ insert_counter denom new cs | some ds ↦ ds ])
      ≡ Table.set denom (elim (Table.get denom (view cs)) [ none ↦ new | some n ↦ f n ]) (view cs)
unfolding insert_counter
counted f new denom cs s = go (change_first f denom cs) (change_first-Changed f denom cs s)
  where
    go :
        (r : Option Counters)
        → Changed f denom cs r
        → view (elim r [ none ↦ insert_counter denom new cs | some ds ↦ ds ])
          ≡ Table.set denom
              (elim (Table.get denom (view cs)) [ none ↦ new | some n ↦ f n ])
              (view cs)
    go none h = rw (h, sort-append denom new cs s h) (view-insert_sorted denom new cs h)
    go (some ds) (n, found, same) = rw (found, same) refl

-- On a sorted slice, `IncrementCounter` writes one more than the denom's count to the map, or 1 where
-- the denom is not counted yet, and the slice stays sorted.
pub increment_counter-view :
    (denom : String) (cs : Counters)
    → IsSorted cs
    → (view (increment_counter denom cs)
        ≡ Table.set denom
            (elim (Table.get denom (view cs)) [ none ↦ 1 | some n ↦ add_u64 n 1 ])
            (view cs))
      × IsSorted (increment_counter denom cs)
unfolding increment_counter
increment_counter-view denom cs s =
    let same = counted (λ n. add_u64 n 1) 1 denom cs s in
    (same, subst⁻¹ Ordered same (set-Ordered text_laws denom _ (view cs) s))

-- On a sorted slice, `ResetCounter` writes 0 to the map under the denom, and the slice stays sorted.
pub reset_counter-view :
    (denom : String) (cs : Counters)
    → IsSorted cs
    → (view (reset_counter denom cs) ≡ Table.set denom 0 (view cs))
      × IsSorted (reset_counter denom cs)
unfolding reset_counter
reset_counter-view denom cs s =
    let same = counted (λ _. 0) 0 denom cs s ∙ zero in
    (same, subst⁻¹ Ordered same (set-Ordered text_laws denom 0 (view cs) s))
  where
    zero :
        Table.set denom (elim (Table.get denom (view cs)) [ none ↦ 0 | some n ↦ 0 ]) (view cs)
        ≡ Table.set denom 0 (view cs)
    zero = ground arith
