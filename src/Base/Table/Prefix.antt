-- ===== src/Base/Table/Prefix.antt =====
-- Walking over a part of a table: the entries whose keys begin with a prefix, or pass another test.
use mathlib.Core.Path.{◌≡◌, refl}
use mathlib.Core.Bool.{Bool, true, false, not, ◌&&◌}
use mathlib.Core.Option.{Option, none, some}
use mathlib.Core.List.{List, [], ◌∷◌}
use native.Mathlib.Omega.{arith}
use sommelier.Base.Lists.{any}
use sommelier.Base.Tests.{if◌then◌else◌}
use sommelier.Base.Table.{Key, Table, same, get, Entries}

abbrev pub is_some : {A : Type 0} → Option A → Bool
is_some none = false
is_some (some _) = true

-- What of an optional value passes a test.
abbrev pub keep : {A : Type 0} → (A → Bool) → Option A → Option A
keep p none = none
keep p (some a) = if p a then some a else none

-- Where a test is in force, what passes it is dropped.
pub drop_kept :
    {A : Type 0} (b : Bool) (p : A → Bool) (o : Option A)
    → (if b && is_some (keep p o) then none else o) ≡ keep (λ a. not (b && p a)) o
drop_kept b p none = ground arith
drop_kept b p (some a) = ground arith

pub keep-some :
    {A : Type 0} (r : A → Bool) (o : Option A) (a : A)
    → keep r o ≡ some a
    → (o ≡ some a) × (r a ≡ true)
keep-some r none a e = cc
keep-some r (some b) a e = ground (arith, e)

pub keep_unless :
    {A : Type 0} (b : Bool) (p r : A → Bool) (o : Option A)
    → ((a : A) → (not b && p a) ≡ (r a && p a))
    → (if b then none else keep p o) ≡ keep p (keep r o)
keep_unless b p r none h = ground arith
keep_unless b p r (some a) h = ground (arith, h a)

pub keep-keep :
    {A : Type 0} (p q : A → Bool) (o : Option A) → keep p (keep q o) ≡ keep (λ a. q a && p a) o
keep-keep p q none = refl
keep-keep p q (some a) = ground arith

pub keep_ext_some :
    {A : Type 0} (p q : A → Bool) (o : Option A)
    → ((a : A) → o ≡ some a → p a ≡ q a)
    → keep p o ≡ keep q o
keep_ext_some p q none h = refl
keep_ext_some p q (some a) h = rw (h a refl) refl

pub keep_all : {A : Type 0} (o : Option A) → keep (λ _. true) o ≡ o
keep_all none = refl
keep_all (some a) = refl

pub keep_ext :
    {A : Type 0} (p q : A → Bool) (o : Option A) → ((a : A) → p a ≡ q a) → keep p o ≡ keep q o
keep_ext p q none h = refl
keep_ext p q (some a) h = rw (h a) refl

module _ {K V : Type 0} where
  -- The values that an iterator over a prefix meets.
  unfoldable pub under : (K → Bool) → Table K V → List V
  under f [] = []
  under f ((k, v) ∷ t) = let rest = under f t in if f k then v ∷ rest else rest

module _ {K V : Type 0} ⦃key : Key K⦄ where
  -- A test that fails wherever the prefix fits finds nothing under the prefix.
  pub any-under_none :
      (f : K → Bool) (at : V → K) (r : V → Bool) (t : Table K V)
      → Entries (λ k v. at v ≡ k) t
      → ((v : V) → (f (at v) && r v) ≡ false)
      → any r (under f t) ≡ false
  unfolding under
  any-under_none f at r [] e h = refl
  any-under_none f at r ((k, v) ∷ t) e h =
      let here : (f k && r v) ≡ false = rw (← e.0) (h v) in
      ground (arith, here, any-under_none f at r t e.1 h)

  -- A test that, wherever the prefix fits, holds of one key alone finds whether that key is stored.
  pub any-under_one :
      (f : K → Bool) (at : V → K) (r : V → Bool) (j : K) (t : Table K V)
      → Entries (λ k v. at v ≡ k) t
      → ((v : V) → (f (at v) && r v) ≡ same j (at v))
      → any r (under f t) ≡ is_some (get j t)
  unfolding under get
  any-under_one f at r j [] e h = refl
  any-under_one f at r j ((k, v) ∷ t) e h =
      let here : (f k && r v) ≡ same j k = rw (← e.0) (h v) in
      ground (arith, here, any-under_one f at r j t e.1 h)

  -- What a lookup finds is met by an iterator.
  pub any-under-get :
      (f : K → Bool) (r : V → Bool) (j : K) (v : V) (t : Table K V)
      → get j t ≡ some v
      → f j ≡ true
      → r v ≡ true
      → any r (under f t) ≡ true
  unfolding under get
  any-under-get f r j v [] g h k = cc
  any-under-get f r j v ((i, w) ∷ t) g h k =
      ground (arith, any-under-get f r j v t, key.eq.beq_iff j i)
