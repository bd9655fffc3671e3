-- ===== src/Base/Table/Pair.antt =====
-- Keys of several parts, and of numbers.
use mathlib.Core.Path.{◌≡◌, ap}
use mathlib.Core.Logic.{◌↔◌}
use mathlib.Core.Bool.{Bool, true, ◌&&◌, ◌||◌}
use native.Mathlib.Omega.{arith}
use Prim.Native.Nat.{ℕ}
use sommelier.Base.Tests.{nat_eq, ltb}
use sommelier.Base.Table.{Key}

-- The bytes of a number have its order.
abbrev pub number : Key ℕ
number = record { eq = nat_eq; before = ltb }

-- The key of a pair is the one key after the other.
module _ {A B : Type 0} (a : Key A) (b : Key B) where
  abbrev pub pair_beq : A × B → A × B → Bool
  pair_beq p q = a.eq.beq p.0 q.0 && b.eq.beq p.1 q.1

  pub pair_iff : (p q : A × B) → (pair_beq p q ≡ true) ↔ (p ≡ q)
  pair_iff (x, y) (z, w) = (
    λ h. pair_path ((a.eq.beq_iff x z).0 (ground arith)) ((b.eq.beq_iff y w).0 (ground arith)),
    λ h.
        let left = (a.eq.beq_iff x z).1 (ap (λ p. p.0) h) in
        let right = (b.eq.beq_iff y w).1 (ap (λ p. p.1) h) in ground arith,
  )
    where
      pair_path : x ≡ z → y ≡ w → ◌≡◌ {A = A × B} (x, y) (z, w)
      pair_path e f = λ i. (e i, f i)

  abbrev pub pair : Key (A × B)
  pair = record {
    eq = record { beq = pair_beq; beq_iff = pair_iff };
    before = λ p q. a.before p.0 q.0 || a.eq.beq p.0 q.0 && b.before p.1 q.1;
  }
