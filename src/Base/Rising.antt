-- ===== src/Base/Rising.antt =====
-- Heights that an iterator meets, in their order, and the loop that keeps each once: the body of
-- `GetScheduledBlockHeights` of x/cork/keeper/keeper.go and x/axelarcork/keeper/keeper.go.
use Prim.Native.Nat.{ℕ, ◌≤◌, ◌<◌}
use mathlib.Core.Path.{◌≡◌, refl}
use mathlib.Core.Bool.{Bool, true, ◌&&◌}
use mathlib.Core.List.{List, [], ◌∷◌}
use native.Mathlib.Omega.{arith}
use sommelier.Base.Tests.{ltb, nat_beq, if◌then◌else◌}
use sommelier.Base.Lists.{any}

-- The heights above the one met before.
unfoldable pub new_heights : ℕ → List ℕ → List ℕ
new_heights latest [] = []
new_heights latest (h ∷ hs) = let rest = new_heights h hs in if ltb latest h then h ∷ rest else rest

abbrev pub Rising : ℕ → List ℕ → Type 0
Rising low [] = Unit
Rising low (n ∷ ns) = (low ≤ n) × Rising n ns

abbrev pub Climbing : ℕ → List ℕ → Type 0
Climbing low [] = Unit
Climbing low (n ∷ ns) = (low < n) × Climbing n ns

abbrev pub is_among : ℕ → List ℕ → Bool
is_among x ns = any (λ n. nat_beq n x) ns

Climbing-weaken : (low mid : ℕ) (ns : List ℕ) → low ≤ mid → Climbing mid ns → Climbing low ns
Climbing-weaken low mid [] h c = tt
Climbing-weaken low mid (n ∷ ns) h c = (omega arith, c.1)

le-among : (low x : ℕ) (ns : List ℕ) → Rising low ns → is_among x ns ≡ true → low ≤ x
le-among low x [] r h = absurd (cc)
le-among low x (n ∷ ns) r h = ground (arith, h, le-among n x ns r.1)

pub new_heights-Climbing :
    (low : ℕ) (ns : List ℕ) → Rising low ns → Climbing low (new_heights low ns)
unfolding new_heights
new_heights-Climbing low [] r = tt
new_heights-Climbing low (n ∷ ns) r =
    ground (arith, new_heights-Climbing n ns r.1, Climbing-weaken low n (new_heights n ns) r.0)

-- Of heights in their order, those above the first bound are kept, and no other.
pub is_among-new_heights :
    (low x : ℕ) (ns : List ℕ)
    → Rising low ns
    → is_among x (new_heights low ns) ≡ (is_among x ns && ltb low x)
unfolding new_heights
is_among-new_heights low x [] r = refl
is_among-new_heights low x (n ∷ ns) r =
    ground (arith, is_among-new_heights n x ns r.1, le-among n x ns r.1)
