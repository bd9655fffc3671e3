-- ===== src/Base/Table/Refill.antt =====
-- Writing the entries of a table one after another, in the order of an iterator, rebuilds it.
use mathlib.Core.Path.{◌≡◌, refl, ap, ◌∙◌, sym}
use mathlib.Core.Bool.{true, false}
use mathlib.Core.List.{[], ◌∷◌, ◌++◌, append_assoc, append-nil}
use native.Mathlib.Omega.{arith}
use sommelier.Base.Table.{Key, Table, set, Entries, Entries-zip}
use sommelier.Base.Table.Ordered.{KeyLaws, Ordered}

module _ {K V : Type 0} ⦃key : Key K⦄ where
  -- A write for each entry.
  unfoldable pub fill : Table K V → Table K V → Table K V
  fill acc [] = acc
  fill acc ((k, v) ∷ t) = fill (set k v acc) t

  -- Every key of the table comes before `k`.
  abbrev Below : K → Table K V → Type 0
  Below k t = Entries (λ j _. key.before j k ≡ true) t

  Below-append :
      (k j : K) (v : V) (t : Table K V)
      → Below k t
      → key.before j k ≡ true
      → Below k (t ++ (j, v) ∷ [])
  Below-append k j v [] h e = (e, tt)
  Below-append k j v ((i, w) ∷ t) h e = (h.0, Below-append k j v t h.1 e)

module _ {K : Type 0} ⦃key : Key K⦄ (laws : KeyLaws K) where
  -- A key before another does not come after it.
  before_asym : (j k : K) → key.before j k ≡ true → key.before k j ≡ false
  before_asym j k h =
      ground (arith, laws.before_trans j k j h, laws.before_differs j j, key.eq.beq_iff j j)

module _ {K V : Type 0} ⦃key : Key K⦄ (laws : KeyLaws K) where
  -- A write past the last key appends.
  set-append : (k : K) (v : V) (t : Table K V) → Below k t → set k v t ≡ t ++ (k, v) ∷ []
  unfolding set
  set-append k v [] h = refl
  set-append k v ((j, w) ∷ t) h = ground (
    arith,
    set-append k v t h.1,
    before_asym laws j k h.0,
    laws.before_differs j k h.0,
    key.eq.beq_iff j k,
    key.eq.beq_iff k j,
  )

  fill-append :
      (acc t : Table K V) → Entries (λ k _. Below k acc) t → Ordered t → fill acc t ≡ acc ++ t
  unfolding fill
  fill-append acc [] h o = sym (append-nil acc)
  fill-append acc ((k, v) ∷ t) h o =
      ap (λ a. fill a t) (set-append k v acc h.0)
      ∙ fill-append (acc ++ (k, v) ∷ []) t
          (Entries-zip (λ j _. Below j acc) (λ j _. key.before k j ≡ true)
            (λ j _. Below j (acc ++ (k, v) ∷ [])) t (λ j w b e. Below-append j k v acc b e) h.1 o.0)
          o.1
      ∙ append_assoc acc ((k, v) ∷ []) t

  Below-nil : (t : Table K V) → Entries (λ k _. Below {V = V} k []) t
  Below-nil [] = tt
  Below-nil ((k, v) ∷ t) = (tt, Below-nil t)

  pub fill-nil : (t : Table K V) → Ordered t → fill [] t ≡ t
  fill-nil t o = fill-append [] t (Below-nil t) o
