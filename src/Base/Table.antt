-- ===== src/Base/Table.antt =====
-- One prefix of a module's KVStore: a table of decoded values, kept in the order in which an
-- iterator over the prefix walks it, which is the order of the keys' bytes.
pub mod Ordered
pub mod Text
pub mod Refill
pub mod Prefix
pub mod Pair
pub mod Size
use mathlib.Core.Path.{◌≡◌, refl}
use mathlib.Core.Bool.{Bool, true, false}
use mathlib.Core.Option.{Option, none, some}
use mathlib.Core.List.{List, [], ◌∷◌, map}
use native.Mathlib.Omega.{arith}
use sommelier.Base.Tests.{Eq, ◌==◌, if◌then◌else◌}

-- A type of keys with the order of their bytes in the store.
pub record Key (K : Type 0) : Type 0 where
  pub eq : Eq K
  pub before : K → K → Bool

abbrev pub Table : Type 0 → Type 0 → Type 0
Table K V = List (K × V)

abbrev pub same : {K : Type 0} ⦃key : Key K⦄ → K → K → Bool
same ⦃key⦄ a b = key.eq.beq a b

module _ {K V : Type 0} ⦃key : Key K⦄ where
  -- `store.Get(key)`
  unfoldable pub get : K → Table K V → Option V
  get k [] = none
  get k ((j, v) ∷ t) = if same k j then some v else get k t

  -- `store.Set(key, value)`
  unfoldable pub set : K → V → Table K V → Table K V
  set k v [] = (k, v) ∷ []
  set k v ((j, w) ∷ t) =
      let rest = set k v t in
      if same k j then (k, v) ∷ t else if key.before k j then (k, v) ∷ (j, w) ∷ t else (j, w) ∷ rest

  -- `store.Delete(key)`
  unfoldable pub delete : K → Table K V → Table K V
  delete k [] = []
  delete k ((j, w) ∷ t) = let rest = delete k t in if same k j then rest else (j, w) ∷ rest

  -- The values, as an iterator over the whole prefix meets them.
  abbrev pub values : Table K V → List V
  values [] = []
  values ((_, v) ∷ t) = v ∷ values t

  pub get-set :
      (k j : K) (v : V) (t : Table K V) → get j (set k v t) ≡ (if same j k then some v else get j t)
  unfolding get set
  get-set k j v [] = refl
  get-set k j v ((i, w) ∷ t) =
      ground (arith, get-set k j v t, key.eq.beq_iff k i, key.eq.beq_iff j i, key.eq.beq_iff j k)

  pub get-delete :
      (k j : K) (t : Table K V) → get j (delete k t) ≡ (if same j k then none else get j t)
  unfolding get delete
  get-delete k j [] = ground arith
  get-delete k j ((i, w) ∷ t) =
      ground (arith, get-delete k j t, key.eq.beq_iff k i, key.eq.beq_iff j i, key.eq.beq_iff j k)

  -- A property of every entry.
  abbrev pub Entries : (K → V → Type 0) → Table K V → Type 0
  Entries P [] = Unit
  Entries P ((k, v) ∷ t) = P k v × Entries P t

  pub set-Entries :
      (P : K → V → Type 0) (k : K) (v : V) (t : Table K V)
      → P k v
      → Entries P t
      → Entries P (set k v t)
  unfolding set
  set-Entries P k v [] p h = (p, tt)
  set-Entries P k v ((j, w) ∷ t) p h = ground (arith, set-Entries P k v t p h.1)

  pub delete-Entries :
      (P : K → V → Type 0) (k : K) (t : Table K V) → Entries P t → Entries P (delete k t)
  unfolding delete
  delete-Entries P k [] h = tt
  delete-Entries P k ((j, w) ∷ t) h = ground (arith, delete-Entries P k t h.1)

  pub get-Entries :
      (P : K → V → Type 0) (k : K) (v : V) (t : Table K V) → Entries P t → get k t ≡ some v → P k v
  unfolding get
  get-Entries P k v [] h e = cc
  get-Entries P k v ((j, w) ∷ t) h e = ground (arith, get-Entries P k v t h.1, key.eq.beq_iff k j)

  -- Two properties of the entries give a third.
  pub Entries-zip :
      (P Q R : K → V → Type 0) (t : Table K V)
      → ((k : K) (v : V) → P k v → Q k v → R k v)
      → Entries P t
      → Entries Q t
      → Entries R t
  Entries-zip P Q R [] f h g = tt
  Entries-zip P Q R ((k, v) ∷ t) f h g = (f k v h.0 g.0, Entries-zip P Q R t f h.1 g.1)
