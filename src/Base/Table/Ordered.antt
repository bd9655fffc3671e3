-- ===== src/Base/Table/Ordered.antt =====
-- Tables whose keys ascend: what iteration relies on.
use Prim.Native.Nat.{ℕ, Ordering}
use Prim.Native.String.{String, compare}
use mathlib.Core.Path.{◌≡◌, refl}
use mathlib.Core.Bool.{Bool, true, false, ◌&&◌, ◌||◌}
use mathlib.Core.Option.{none, some}
use mathlib.Core.List.{[], ◌∷◌}
use native.Mathlib.Omega.{arith}
use sommelier.Base.Tests.{ltb, nat_beq, nat_eq, pair_eq, string_eq}
use sommelier.Base.Table.{
  Key, Table, same, get, set, delete, Entries, set-Entries, delete-Entries, Entries-zip,
}

-- Ids: an id in big-endian bytes is ordered as the number, a pair by its parts.
instance abbrev pub nat_key : Key ℕ
nat_key = record { eq = nat_eq; before = ltb }

instance abbrev pub pair_key : Key (ℕ × ℕ)
pair_key = record { eq = pair_eq; before = λ p q. ltb p.0 q.0 || nat_beq p.0 q.0 && ltb p.1 q.1 }

abbrev pub before_text : String → String → Bool
before_text s t = elim (compare s t) [ Ordering.lt ↦ true | _ ↦ false ]

-- Texts, in the order of their bytes.
instance abbrev pub text_key : Key String
text_key = record { eq = string_eq; before = before_text }

-- The order of the keys is strict and total.
pub record KeyLaws (K : Type 0) ⦃key : Key K⦄ : Type 0 where
  pub before_differs : (a b : K) → key.before a b ≡ true → same a b ≡ false
  pub before_trans :
      (a b c : K) → key.before a b ≡ true → key.before b c ≡ true → key.before a c ≡ true
  pub before_total : (a b : K) → same a b ≡ false → key.before a b ≡ false → key.before b a ≡ true

module _ {K V : Type 0} ⦃key : Key K⦄ where
  -- Every key of the table comes after `k`.
  abbrev pub Above : K → Table K V → Type 0
  Above k t = Entries (λ j _. key.before k j ≡ true) t

  abbrev pub Ordered : Table K V → Type 0
  Ordered [] = Unit
  Ordered ((k, v) ∷ t) = Above k t × Ordered t

module _ {K V : Type 0} ⦃key : Key K⦄ (laws : KeyLaws K) where
  pub Above-trans : (i j : K) (t : Table K V) → key.before i j ≡ true → Above j t → Above i t
  Above-trans i j [] e h = tt
  Above-trans i j ((k, v) ∷ t) e h = (laws.before_trans i j k e h.0, Above-trans i j t e h.1)

  pub set-Ordered : (k : K) (v : V) (t : Table K V) → Ordered t → Ordered (set k v t)
  unfolding set
  set-Ordered k v [] h = (tt, tt)
  set-Ordered k v ((j, w) ∷ t) h = ground (
    arith,
    key.eq.beq_iff k j,
    Above-trans k j t,
    laws.before_total k j,
    set-Entries (λ i _. key.before j i ≡ true) k v t,
    set-Ordered k v t h.1,
  )

  pub delete-Ordered : (k : K) (t : Table K V) → Ordered t → Ordered (delete k t)
  unfolding delete
  delete-Ordered k [] h = tt
  delete-Ordered k ((j, w) ∷ t) h =
      ground (arith, delete-Entries (λ i _. key.before j i ≡ true) k t, delete-Ordered k t h.1)

  pub get-Above : (k : K) (t : Table K V) → Above k t → get k t ≡ none
  unfolding get
  get-Above k [] h = refl
  get-Above k ((j, w) ∷ t) h = ground (arith, laws.before_differs k j, get-Above k t h.1)

  get-other :
      (j k : K) (v w : V) (t : Table K V)
      → key.before j k ≡ true
      → get k t ≡ some v
      → get k ((j, w) ∷ t) ≡ some v
  unfolding get
  get-other j k v w t b e =
      ground (arith, laws.before_differs j k b, key.eq.beq_iff j k, key.eq.beq_iff k j)

  get-first : (k : K) (v : V) (t : Table K V) → get k ((k, v) ∷ t) ≡ some v
  unfolding get
  get-first k v t = ground (arith, key.eq.beq_iff k k)

  -- Under ascending keys each entry is the one that a lookup of its key finds.
  pub Ordered-get : (t : Table K V) → Ordered t → Entries (λ k v. get k t ≡ some v) t
  Ordered-get [] h = tt
  Ordered-get ((j, w) ∷ t) h = (
    get-first j w t,
    Entries-zip (λ k _. key.before j k ≡ true) (λ k v. get k t ≡ some v)
        (λ k v. get k ((j, w) ∷ t) ≡ some v) t (λ k v b e. get-other j k v w t b e) h.0
        (Ordered-get t h.1),
  )

-- The order of the numbers, and that of pairs by their first parts.
pub nat_laws : KeyLaws ℕ
nat_laws = record {
  before_differs = λ a b h. ground arith;
  before_trans = λ a b c h k. ground arith;
  before_total = λ a b h k. ground arith;
}

pub pair_laws : KeyLaws (ℕ × ℕ)
pair_laws = record {
  before_differs = λ a b h. ground arith;
  before_trans = λ a b c h k. ground arith;
  before_total = λ a b h k. ground arith;
}
