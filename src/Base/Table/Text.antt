-- ===== src/Base/Table/Text.antt =====
-- The order of texts, by their characters' code points, which is that of their bytes in UTF-8.
use Prim.Native.String.{String, [], ◌∷◌}
use Prim.Native.String.compare.{nil-nil, nil-cons, cons-nil, cons-cons}
use mathlib.Core.Path.{◌≡◌}
use mathlib.Core.Bool.{true, false}
use native.Mathlib.Omega.{arith}
use sommelier.Base.Table.{same}
use sommelier.Base.Table.Ordered.{KeyLaws, before_text, text_key}

before_text_trans :
    (s t u : String) → before_text s t ≡ true → before_text t u ≡ true → before_text s u ≡ true
before_text_trans [] [] u h k = k
before_text_trans [] (d ∷ t) [] h k = ground (arith, cons-nil d t)
before_text_trans [] (d ∷ t) (e ∷ u) h k = ground (arith, nil-cons e u)
before_text_trans (c ∷ s) [] u h k = ground (arith, cons-nil c s)
before_text_trans (c ∷ s) (d ∷ t) [] h k = ground (arith, cons-nil d t)
before_text_trans (c ∷ s) (d ∷ t) (e ∷ u) h k =
    ground (arith, before_text_trans s t u, cons-cons c d s t, cons-cons d e t u, cons-cons c e s u)

before_text_differs : (s t : String) → before_text s t ≡ true → same s t ≡ false
before_text_differs s t h = ground arith

before_text_total :
    (s t : String) → same s t ≡ false → before_text s t ≡ false → before_text t s ≡ true
before_text_total [] [] h k = ground (arith, nil-nil)
before_text_total [] (d ∷ t) h k = ground (arith, nil-cons d t)
before_text_total (c ∷ s) [] h k = ground (arith, nil-cons c s)
before_text_total (c ∷ s) (d ∷ t) h k =
    ground (arith, before_text_total s t, cons-cons c d s t, cons-cons d c t s)

pub text_laws : KeyLaws String
text_laws = record {
  before_differs = before_text_differs;
  before_trans = before_text_trans;
  before_total = before_text_total;
}
