-- ===== src/Cellars/Members.antt =====
-- Which cellars are on the lists that the loops leave.
use sommelier.Base.{
  ◌≡◌, ◌↔◌, ◌∙◌, sym, refl, String, Bool, true, not, ◌&&◌, ◌||◌, List, [], ◌∷◌, ◌++◌, map, any,
  arith, Eq, Bool-cases, inl, inr,
}
use sommelier.Cellars.{names, is_in, keep_cellars, add_cellars}

module _ {Address : Type 0} (eq : Eq Address) (read : String → Address) (text : Address → String)
    (back : (a : Address) → eq.beq (read (text a)) a ≡ true) where
  -- An address that is read back from its text is the one that was written.
  text_back : (a : Address) → read (text a) ≡ a
  text_back a = (eq.beq_iff (read (text a)) a).0 (back a)

  pub is_in-keep_cellars :
      (removed : List String) (found : List Address) (a : Address)
      → is_in eq read a (map read (keep_cellars eq read text removed found))
        ≡ (is_in eq read a found && not (names eq read removed a))
  unfolding keep_cellars
  is_in-keep_cellars removed [] a = refl
  is_in-keep_cellars removed (c ∷ found) a =
      let ih = is_in-keep_cellars removed found a in
      elim (Bool-cases (eq.beq c a)) [
        | inl e ↦ ground (arith, e, text_back c, ih, (eq.beq_iff c a).0 e)
        | inr e ↦ ground (arith, e, text_back c, ih)
      ]

  any-append :
      (a c : Address) (found : List Address)
      → is_in eq read a (found ++ c ∷ []) ≡ (is_in eq read a found || eq.beq c a)
  any-append a c [] = ground arith
  any-append a c (d ∷ found) = ground (arith, any-append a c found)

  known_in :
      (a c : Address) (found : List Address)
      → is_in eq read c found ≡ true
      → eq.beq c a ≡ true
      → is_in eq read a found ≡ true
  known_in a c found h e = rw (← (eq.beq_iff c a).0 e) h

  is_in-add_cellars :
      {S : Type 0} (write : String → S → S) (ids : List String) (found : List Address) (s : S)
      (a : Address)
      → is_in eq read a (add_cellars eq read write ids found s).0
        ≡ (is_in eq read a found || names eq read ids a)
  unfolding add_cellars
  is_in-add_cellars write [] found s a = ground arith
  is_in-add_cellars write (i ∷ ids) found s a =
      let c = read i in
      let tests : (eq.beq a c ≡ true) ↔ (eq.beq c a ≡ true) = (
        λ h. (eq.beq_iff c a).1 (sym ((eq.beq_iff a c).0 h)),
        λ h. (eq.beq_iff a c).1 (sym ((eq.beq_iff c a).0 h)),
      ) in
      elim (Bool-cases (is_in eq read c found)) [
        | inl e ↦
            ground (arith, e, tests, known_in a c found e, is_in-add_cellars write ids found s a)
        | inr e ↦ ground (
          arith,
          e,
          tests,
          any-append a c found,
          is_in-add_cellars write ids (found ++ c ∷ []) (write i s) a,
        )
      ]

  is_in-texts :
      (a : Address) (found : List Address)
      → any (λ i. eq.beq (read i) a) (map text found) ≡ is_in eq read a found
  is_in-texts a [] = refl
  is_in-texts a (c ∷ found) = ground (arith, text_back c, is_in-texts a found)

  is_in-map :
      (a : Address) (ids : List String)
      → is_in eq read a (map read ids) ≡ any (λ i. eq.beq (read i) a) ids
  is_in-map a [] = refl
  is_in-map a (i ∷ ids) = ground (arith, is_in-map a ids)

  -- Addresses are written as texts, sorted and read back: where sorting keeps what a list holds, the
  -- old and the named ones are there.
  pub is_in-sorted_texts :
      (sort_texts : List String → List String)
      → ((p : String → Bool) (ids : List String) → any p (sort_texts ids) ≡ any p ids)
      → {S : Type 0} (write : String → S → S) (ids : List String) (found : List Address) (s : S)
        (a : Address)
      → is_in eq read a (map read (sort_texts (map text (add_cellars eq read write ids found s).0)))
        ≡ (is_in eq read a found || names eq read ids a)
  is_in-sorted_texts sort_texts keeps write ids found s a =
      let after = (add_cellars eq read write ids found s).0 in
      is_in-map a (sort_texts (map text after))
      ∙ keeps (λ i. eq.beq (read i) a) (map text after)
      ∙ is_in-texts a after
      ∙ is_in-add_cellars write ids found s a
