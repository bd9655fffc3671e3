-- ===== src/Cork/Cellars/Managed.antt =====
-- Which cellars are managed after a proposal.
use sommelier.Base.{
  ◌≡◌, String, Bool, true, not, ◌&&◌, ◌||◌, List, any, arith, Bool-cases, inl, inr, ◌==◌, string_eq,
}
use sommelier.Base.Exec.{ok}
use sommelier.Base.Table
use sommelier.Base.Table.{Table}
use sommelier.Base.Table.Ordered.{text_key}
use sommelier.Cork.Types.{Bridge, get_cellar_ids, has_cellar_id}
use sommelier.Cellars.Members.{is_in-keep_cellars, is_in-sorted_texts}
use sommelier.Cork.Cellars.{
  CellarWorld, names, subscription_id, remove_managed_cellars, add_managed_cellars,
}

-- An address is read back from its text.
abbrev pub TextRoundtrip : {Decimal : Type 0} → Bridge Decimal → Type 0
TextRoundtrip b = (a : b.Address) → b.hex_to_address (b.address_text a) ≡ a

module _ {Decimal : Type 0} (b : Bridge Decimal) (text : TextRoundtrip b) where
  back : (a : b.Address) → b.address_eq.beq (b.hex_to_address (b.address_text a)) a ≡ true
  back a = (b.address_eq.beq_iff (b.hex_to_address (b.address_text a)) a).1 (text a)

  -- If an address is read back from its text, then after a removal a cellar is managed exactly if it
  -- was and the proposal does not name it.
  pub remove_managed_cellars-has :
      (removed : List String) (w : CellarWorld b.Address) (a : b.Address)
      → has_cellar_id b a (remove_managed_cellars b removed w).corks
        ≡ (has_cellar_id b a w.corks && not (names b removed a))
  unfolding remove_managed_cellars
  remove_managed_cellars-has removed w a =
      is_in-keep_cellars b.address_eq b.hex_to_address b.address_text back removed
        (get_cellar_ids b w.corks) a

  -- If an address is read back from its text and sorting keeps what a list holds, then after an
  -- addition that succeeds a cellar is managed exactly if it was or the proposal names it.
  pub add_managed_cellars-has :
      (sort_texts : List String → List String)
      → ((p : String → Bool) (ids : List String) → any p (sort_texts ids) ≡ any p ids)
      → (domain : String) (added : List String) (w : CellarWorld b.Address) (a : b.Address)
      → (add_managed_cellars b sort_texts domain added w).0 ≡ ok tt
      → has_cellar_id b a (add_managed_cellars b sort_texts domain added w).1.corks
        ≡ (has_cellar_id b a w.corks || names b added a)
  unfolding add_managed_cellars
  add_managed_cellars-has sort_texts keeps domain added w a h =
      elim (Bool-cases (any (λ d. d == domain) w.publishers)) [
        | inr e ↦ absurd (ground (arith, e))
        | inl e ↦ rw e (
            is_in-sorted_texts b.address_eq b.hex_to_address b.address_text back sort_texts keeps
              (λ i. Table.set (subscription_id b i) domain) added (get_cellar_ids b w.corks)
              w.default_subscriptions a)
      ]
