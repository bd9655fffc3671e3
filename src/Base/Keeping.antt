-- ===== src/Base/Keeping.antt =====
-- What a Go method keeps, however it ends: a rule for each way that the models build one.
use mathlib.Core.Bool.{Bool, true, false}
use mathlib.Core.Option.{Option, none, some}
use sommelier.Base.Exec.{
  Exec, Failure, pure, raise, gets, or_panic, or_raise, raise_if, modify, when, ◌>>=◌, bind_rule,
}

-- The method leaves what holds of the state.
pub record Keeps {S C A : Type 0} (P : S → Type 0) (m : Exec S C A) : Type 0 where
  pub at : (s : S) → P s → P (m s).1

module _ {S C : Type 0} {P : S → Type 0} where
  pub gets-Keeps : {A : Type 0} (f : S → A) → Keeps {C = C} P (gets f)
  gets-Keeps f = record { at = λ s h. h }

  pub pure-Keeps : {A : Type 0} (a : A) → Keeps {C = C} P (pure a)
  pure-Keeps a = record { at = λ s h. h }

  pub or_panic-Keeps : {A : Type 0} (o : Option A) → Keeps {C = C} P (or_panic o)
  or_panic-Keeps none = record { at = λ s h. h }
  or_panic-Keeps (some a) = record { at = λ s h. h }

  pub or_raise-Keeps : {A : Type 0} (o : Option A) (e : Failure C) → Keeps P (or_raise o e)
  or_raise-Keeps none e = record { at = λ s h. h }
  or_raise-Keeps (some a) e = record { at = λ s h. h }

  pub raise_if-Keeps : (g : Bool) (e : Failure C) → Keeps P (raise_if g e)
  raise_if-Keeps g e = record { at = λ s h. h }

  pub raise-Keeps : {A : Type 0} (e : Failure C) → Keeps {A = A} P (raise e)
  raise-Keeps e = record { at = λ s h. h }

  pub modify-Keeps : (f : S → S) → ((s : S) → P s → P (f s)) → Keeps {C = C} P (modify f)
  modify-Keeps f step = record { at = step }

  pub when-Keeps : (g : Bool) (m : Exec S C (Unit {0})) → Keeps P m → Keeps P (when g m)
  when-Keeps true m k = k
  when-Keeps false m k = record { at = λ s h. h }

  pub bind-Keeps :
      {A B : Type 0} (m : Exec S C A) (f : A → Exec S C B)
      → Keeps P m
      → ((a : A) → Keeps P (f a))
      → Keeps P (m >>= f)
  bind-Keeps m f k l = record {
    at = λ s h. bind_rule P m f s (k.at s h) (λ a _. (l a).at (m s).1 (k.at s h));
  }

pub ruleset keeping = (
  gets-Keeps, pure-Keeps, or_panic-Keeps, or_raise-Keeps, raise_if-Keeps, raise-Keeps, when-Keeps,
  bind-Keeps,
)
