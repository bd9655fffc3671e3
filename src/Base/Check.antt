-- ===== src/Base/Check.antt =====
-- A stateless check, such as a `ValidateBasic`: the error that it ends with, or nothing.
use mathlib.Core.Bool.{Bool}
use mathlib.Core.Option.{Option, none, some}
use mathlib.Core.List.{List, [], ◌∷◌}
use sommelier.Base.Tests.{if◌then◌else◌}
use sommelier.Base.Exec.{Failure, wrapped, Outcome, ok, err, panic, Exec, pure, raise}

abbrev pub Checked : Type 0 → Type 0
Checked C = Option (Failure C)

module _ {C : Type 0} where
  -- A row of `if test { return errorsmod.Wrapf(e, ...) }`, and `return nil` at its end.
  abbrev pub refuse : List (Bool × C) → Checked C
  refuse [] = none
  refuse ((test, e) ∷ row) = if test then some (wrapped e) else refuse row

  -- A row of tests with the errors as they are returned.
  abbrev pub refuse_with : List (Bool × Failure C) → Checked C
  refuse_with [] = none
  refuse_with ((test, e) ∷ row) = if test then some e else refuse_with row

  -- `if err := c; err != nil { return err }` before the rest of a function.
  abbrev pub then_check : Checked C → Checked C → Checked C
  then_check none rest = rest
  then_check (some e) rest = some e

  abbrev pub check_all {ℓ} : {A : Type ℓ} → (A → Checked C) → List A → Checked C
  check_all c [] = none
  check_all c (x ∷ xs) = then_check (c x) (check_all c xs)

  -- The outcome of a check, where another step of it may panic.
  abbrev pub verdict : Checked C → Outcome C (Unit {0})
  verdict none = ok tt
  verdict (some e) = err e

  abbrev pub then_verdict : Outcome C (Unit {0}) → Outcome C (Unit {0}) → Outcome C (Unit {0})
  then_verdict (ok _) rest = rest
  then_verdict (err e) rest = err e
  then_verdict panic rest = panic

  -- A check of what a pointer points to, which panics at nil.
  abbrev pub deref {ℓ} : {A : Type ℓ} → (A → Checked C) → Option A → Outcome C (Unit {0})
  deref check none = panic
  deref check (some a) = verdict (check a)

  -- A check inside a method.
  abbrev pub ensure : {S : Type 0} → Checked C → Exec S C (Unit {0})
  ensure none = pure tt
  ensure (some e) = raise e
