-- ===== src/Base/Exec.antt =====
-- A Go method that changes state and returns an error or panics. What was written before an error
-- or a panic stays written, so the state comes back in each case.
use mathlib.Core.Path.{◌≡◌, refl}
use mathlib.Core.Logic.{◌≢◌, ◌⊎◌, inl, inr}
use mathlib.Core.Bool.{Bool, true, false}
use mathlib.Core.Option.{Option, none, some}
use mathlib.Core.List.{List, [], ◌∷◌}
use sommelier.Base.Tests.{if◌then◌else◌}

-- An error value: a sentinel itself, a sentinel behind `errorsmod.Wrap`, or an error of code
-- outside the module. A comparison `err == ErrX` holds of the sentinel alone.
pub data Failure (C : Type 0) : Type 0 where
  sentinel : C → Failure C
  wrapped : C → Failure C
  foreign : Failure C

pub data Outcome (C A : Type 0) : Type 0 where
  ok : A → Outcome C A
  err : Failure C → Outcome C A
  panic : Outcome C A

-- A call with no result succeeds or does not.
pub Outcome-cases : {C : Type 0} (r : Outcome C (Unit {0})) → (r ≡ ok tt) ⊎ (r ≢ ok tt)
Outcome-cases (ok _) = inl refl
Outcome-cases (err e) = inr (λ h. cc)
Outcome-cases panic = inr (λ h. cc)

abbrev pub Exec : Type 0 → Type 0 → Type 0 → Type 0
Exec S C A = S → Outcome C A × S

module _ {S C A : Type 0} where
  abbrev pub pure : A → Exec S C A
  pure a s = (ok a, s)

  abbrev pub raise : Failure C → Exec S C A
  raise e s = (err e, s)

  abbrev pub abort : Exec S C A
  abort s = (panic, s)

  abbrev pub gets : (S → A) → Exec S C A
  gets f s = (ok (f s), s)

  -- A value that is absent where the code would panic.
  abbrev pub or_panic : Option A → Exec S C A
  or_panic none s = (panic, s)
  or_panic (some a) s = (ok a, s)

  -- `if !found { return e }`
  abbrev pub or_raise : Option A → Failure C → Exec S C A
  or_raise none e s = (err e, s)
  or_raise (some a) e s = (ok a, s)

module _ {S C A B : Type 0} where
  infixl 5 ◌>>=◌
  abbrev pub ◌>>=◌ : Exec S C A → (A → Exec S C B) → Exec S C B
  ◌>>=◌ m f s =
      let (r, s') = m s in elim r [ ok a ↦ f a s' | err e ↦ (err e, s') | panic ↦ (panic, s') ]

  -- What holds after the first part of a sequence, and is kept by the second wherever the first
  -- succeeds, holds after the sequence.
  pub bind_rule :
      (P : S → Type 0) (m : Exec S C A) (f : A → Exec S C B) (s : S)
      → P (m s).1
      → ((a : A) → (m s).0 ≡ ok a → P (f a (m s).1).1)
      → P ((m >>= f) s).1
  bind_rule P m f s h keep = let (r, s') = m s in go r s' h keep
    where
      go :
          (r : Outcome C A) (t : S)
          → P t
          → ((a : A) → r ≡ ok a → P (f a t).1)
          → P (((λ (_ : S). (r, t)) >>= f) t).1
      go (ok a) t h keep = keep a refl
      go (err _) t h keep = h
      go panic t h keep = h

  -- A sequence that succeeds goes on from a first part that has succeeded.
  pub bind_ok :
      (m : Exec S C A) (f : A → Exec S C B) (s : S) (b : B)
      → ((m >>= f) s).0 ≡ ok b
      → (a : A) × ((m s).0 ≡ ok a) × ((m >>= f) s ≡ f a (m s).1)
  bind_ok m f s b h = let (r, s') = m s in go r s' h
    where
      go :
          (r : Outcome C A) (t : S)
          → (((λ (_ : S). (r, t)) >>= f) t).0 ≡ ok b
          → (a : A) × (r ≡ ok a) × (((λ (_ : S). (r, t)) >>= f) t ≡ f a t)
      go (ok a) t h = (a, refl, refl)
      go (err _) t h = cc
      go panic t h = cc

module _ {S C B : Type 0} where
  infixl 5 ◌>>◌
  abbrev pub ◌>>◌ : Exec S C (Unit {0}) → Exec S C B → Exec S C B
  m >> k = m >>= λ _. k

module _ {S C : Type 0} where
  abbrev pub raise_if : Bool → Failure C → Exec S C (Unit {0})
  raise_if b e s = (if b then err e else ok tt, s)

  -- `if b { m }`
  abbrev pub when : Bool → Exec S C (Unit {0}) → Exec S C (Unit {0})
  when true m = m
  when false m = pure tt

  abbrev pub modify : (S → S) → Exec S C (Unit {0})
  modify f s = (ok tt, f s)

  -- `if err := m; err != nil { panic(err) }`
  abbrev pub must : {A : Type 0} → Exec S C A → Exec S C A
  must m s =
      let (r, s') = m s in elim r [ ok a ↦ (ok a, s') | err e ↦ (panic, s') | panic ↦ (panic, s') ]

  -- `for _, x := range xs { body(x) }`, which stops at the first error or panic.
  unfoldable pub for_each : {A : Type 0} → (A → Exec S C (Unit {0})) → List A → Exec S C (Unit {0})
  for_each body [] = pure tt
  for_each body (x ∷ xs) = let rest = for_each body xs in body x >> rest

  -- An invariant of a loop's body is one of the loop, however the loop ends.
  pub for_each-Keeps :
      {A : Type 0} (P : S → Type 0) (body : A → Exec S C (Unit {0}))
      → ((x : A) (s : S) → P s → P (body x s).1)
      → (xs : List A) (s : S) → P s
      → P (for_each body xs s).1
  unfolding for_each
  for_each-Keeps P body keep [] s h = h
  for_each-Keeps P body keep (x ∷ xs) s h =
      bind_rule P (body x) (λ _. for_each body xs) s (keep x s h)
        (λ _ _. for_each-Keeps P body keep xs (body x s).1 (keep x s h))

-- A guard and a write: what holds before and after the write holds however they end.
pub if_kept :
    {S C : Type 0} (P : S → Type 0) (b : Bool) (e : C) (s : S) (f : S → S)
    → P s
    → P (f s)
    → P ((raise_if {S = S} b (wrapped e) >> modify f) s).1
if_kept P true e s f h k = h
if_kept P false e s f h k = k
