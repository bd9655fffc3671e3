-- ===== src/Base/Table/Size.antt =====
-- The number of entries of a table, and the order of keys of two parts.
use Prim.Native.Nat.{ℕ, ◌+◌}
use mathlib.Core.Path.{◌≡◌, refl}
use mathlib.Core.Bool.{true, false}
use mathlib.Core.Option.{some}
use mathlib.Core.List.{[], ◌∷◌}
use native.Mathlib.Omega.{arith}
use sommelier.Base.Tests.{nat_eq}
use sommelier.Base.Lists.{length}
use sommelier.Base.Table.{Key, Table, get, delete}
use sommelier.Base.Table.Ordered.{KeyLaws, Above, Ordered}
use sommelier.Base.Table.Pair.{number, pair}

module _ {K V : Type 0} ⦃key : Key K⦄ (laws : KeyLaws K) where
  delete-Above : (k : K) (t : Table K V) → Above k t → delete k t ≡ t
  unfolding delete
  delete-Above k [] h = refl
  delete-Above k ((j, w) ∷ t) h = ground (arith, laws.before_differs k j h.0, delete-Above k t h.1)

  -- A delete of a key that is stored takes one entry.
  pub length-delete :
      (k : K) (v : V) (t : Table K V)
      → Ordered t
      → get k t ≡ some v
      → length (delete k t) + 1 ≡ length t
  unfolding delete get
  length-delete k v [] o e = cc
  length-delete k v ((j, w) ∷ t) o e =
      ground (arith, e, key.eq.beq_iff k j, delete-Above j t o.0, length-delete k v t o.1)

pub number-KeyLaws : KeyLaws ℕ ⦃key = number⦄
number-KeyLaws = record {
  before_differs = λ a b h. ground arith;
  before_trans = λ a b c h k. ground arith;
  before_total = λ a b h k. ground arith;
}

module _ {A B : Type 0} (a : Key A) (b : Key B) (la : KeyLaws A ⦃key = a⦄)
    (lb : KeyLaws B ⦃key = b⦄) where
  pair_differs : (p q : A × B) → (pair a b).before p q ≡ true → (pair a b).eq.beq p q ≡ false
  pair_differs p q h = ground (arith, h, la.before_differs p.0 q.0, lb.before_differs p.1 q.1)

  pair_trans :
      (p q r : A × B)
      → (pair a b).before p q ≡ true
      → (pair a b).before q r ≡ true
      → (pair a b).before p r ≡ true
  pair_trans p q r h k = ground (
    arith,
    h,
    k,
    la.before_trans p.0 q.0 r.0,
    lb.before_trans p.1 q.1 r.1,
    a.eq.beq_iff p.0 q.0,
    a.eq.beq_iff q.0 r.0,
    a.eq.beq_iff p.0 r.0,
  )

  pair_total :
      (p q : A × B)
      → (pair a b).eq.beq p q ≡ false
      → (pair a b).before p q ≡ false
      → (pair a b).before q p ≡ true
  pair_total p q h k = ground (
    arith,
    h,
    k,
    la.before_total p.0 q.0,
    lb.before_total p.1 q.1,
    a.eq.beq_iff p.0 q.0,
    a.eq.beq_iff q.0 p.0,
  )

  -- The one part and then the other order the pairs.
  pub pair-KeyLaws : KeyLaws (A × B) ⦃key = pair a b⦄
  pair-KeyLaws = record {
    before_differs = pair_differs;
    before_trans = pair_trans;
    before_total = pair_total;
  }
