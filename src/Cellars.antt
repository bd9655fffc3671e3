-- ===== src/Cellars.antt =====
-- The loops over managed cellars that the proposals of x/cork and x/axelarcork share, in their files
-- keeper/proposal_handler.go. `write` and `clear` are what they do to another module's state for a cellar.
pub mod Members
use sommelier.Base.{String, Bool, List, [], ◌∷◌, ◌++◌, any, Eq, if◌then◌else◌}

module _ {Address : Type 0} (eq : Eq Address) (read : String → Address) where
  -- Whether a list of ids names an address.
  abbrev pub names : List String → Address → Bool
  names ids a = any (λ i. eq.beq a (read i)) ids

  -- Whether an address is on a list.
  abbrev pub is_in : Address → List Address → Bool
  is_in a found = any (λ c. eq.beq c a) found

  -- The loop that keeps the ids that are not removed.
  unfoldable pub keep_cellars : (Address → String) → List String → List Address → List String
  keep_cellars text removed [] = []
  keep_cellars text removed (a ∷ rest) =
      let kept = keep_cellars text removed rest in if names removed a then kept else text a ∷ kept

  -- The loop that appends the ids that are new, with a write for each.
  unfoldable pub add_cellars :
      {S : Type 0} → (String → S → S) → List String → List Address → S → List Address × S
  add_cellars write [] found s = (found, s)
  add_cellars write (i ∷ ids) found s =
      let known = add_cellars write ids found s in
      let added = add_cellars write ids (found ++ read i ∷ []) (write i s) in
      if is_in (read i) found then known else added

-- The loop over the removed ids.
unfoldable pub clear_each : {S : Type 0} → (String → S → S) → List String → S → S
clear_each clear [] s = s
clear_each clear (i ∷ ids) s = clear_each clear ids (clear i s)
