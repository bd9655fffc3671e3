-- ===== src/AxelarCork/Cellars/Managed.antt =====
-- Which cellars of a chain are managed after a proposal.
use sommelier.Base.{
  ℕ, ◌≡◌, String, Bool, true, not, ◌&&◌, ◌||◌, some, List, map, any, arith, Option-cases, inl, inr,
  ◌==◌, nat_eq,
}
use sommelier.Base.Exec.{ok}
use sommelier.Base.Table.{get-set}
use sommelier.Base.Table.Pair.{number}
use sommelier.Cellars.{names, keep_cellars, add_cellars}
use sommelier.Cellars.Members.{is_in-keep_cellars, is_in-sorted_texts}
use sommelier.PubSub.Types.{Accounts, Publisher}
use sommelier.AxelarCork.Types.{
  Chains, State, ChainConfiguration, get_cellar_ids, set_cellar_ids, has_cellar_id,
  get_chain_configuration_by_id,
}
use sommelier.AxelarCork.Validate.{CellarIdSet, AxelarReaders, validate_cellar_id_set}
use sommelier.PubSub.Store.{get_publisher}
use sommelier.AxelarCork.Cellars.{
  AddAxelarManagedCellarIdsProposal, RemoveAxelarManagedCellarIdsProposal, World,
  handle_add_managed_cellars, handle_remove_managed_cellars, write_added, write_removed, subscribe,
}

module _ {Decimal : Type 0} (b : Chains Decimal) where
  -- What a write of a chain's ids adds to it is added to no other chain.
  has_cellar_id-or :
      (id chain : ℕ) (ids : List String) (a : b.Address) (t : Bool) (s : State b)
      → any (λ c. b.address_eq.beq c a) (map b.hex_to_address ids) ≡ (has_cellar_id b id a s || t)
      → has_cellar_id b chain a (set_cellar_ids b id ids s)
        ≡ (has_cellar_id b chain a s || chain == id && t)
  has_cellar_id-or id chain ids a t s e =
      ground (arith, e, get-set ⦃key = number⦄ id chain ids s.cellar_ids)

  -- What it takes away is taken from no other chain.
  has_cellar_id-and :
      (id chain : ℕ) (ids : List String) (a : b.Address) (t : Bool) (s : State b)
      → any (λ c. b.address_eq.beq c a) (map b.hex_to_address ids)
        ≡ (has_cellar_id b id a s && not t)
      → has_cellar_id b chain a (set_cellar_ids b id ids s)
        ≡ (has_cellar_id b chain a s && not (chain == id && t))
  has_cellar_id-and id chain ids a t s e =
      ground (arith, e, get-set ⦃key = number⦄ id chain ids s.cellar_ids)

module _ {Decimal : Type 0} (b : Chains Decimal) (r : AxelarReaders) (accounts : Accounts)
    (decimal : ℕ → String) (sort_texts : List String → List String)
    (back : (a : b.Address) → b.address_eq.beq (b.hex_to_address (b.address_text a)) a ≡ true) where
  -- The addresses that an addition leaves.
  abbrev added :
      ℕ
      → AddAxelarManagedCellarIdsProposal
      → List String
      → World b r accounts decimal sort_texts
      → List b.Address
  added id p ids w =
      (add_cellars b.address_eq b.hex_to_address
        (subscribe b r accounts decimal sort_texts p.chain_id p.publisher_domain) ids
        (get_cellar_ids b id w.store) w.pubsub).0

  handle_add_managed_cellars_ok :
      (p : AddAxelarManagedCellarIdsProposal) (ids : CellarIdSet)
      (w : World b r accounts decimal sort_texts)
      → p.cellar_ids ≡ some ids
      → (handle_add_managed_cellars b r accounts decimal sort_texts p w).0 ≡ ok tt
      → (g : ChainConfiguration) × (d : Publisher) × (get_chain_configuration_by_id b p.chain_id
            w.store
          ≡ some g)
        × (get_publisher accounts p.publisher_domain w.pubsub ≡ some d)
        × ((handle_add_managed_cellars b r accounts decimal sort_texts p w).1
            ≡ write_added b r accounts decimal sort_texts g.id p ids.ids w)
  unfolding handle_add_managed_cellars
  handle_add_managed_cellars_ok p ids w named h =
      elim (Option-cases (get_chain_configuration_by_id b p.chain_id w.store)) [
        | inl e ↦ absurd (ground (arith, e, h))
        | inr (g, e) ↦ elim (Option-cases (get_publisher accounts p.publisher_domain w.pubsub)) [
          | inl q ↦ absurd (ground (arith, e, q, h))
          | inr (d, q) ↦ elim (Option-cases (validate_cellar_id_set b r ids)) [
            | inl v ↦ (g, d, e, q, ground (arith, e, q, named, v))
            | inr (x, v) ↦ absurd (ground (arith, e, q, named, v, h))
          ]
        ]
      ]

  -- An addition that succeeds names a configured chain and a known publisher. If an address is read
  -- back from its text and sorting keeps what a list holds, then a cellar of that chain is managed
  -- exactly if it was or is named, and one of another chain exactly if it was.
  pub handle_add_managed_cellars-has :
      ((p : String → Bool) (ids : List String) → any p (sort_texts ids) ≡ any p ids)
      → (p : AddAxelarManagedCellarIdsProposal) (ids : CellarIdSet)
        (w : World b r accounts decimal sort_texts)
      → p.cellar_ids ≡ some ids
      → (handle_add_managed_cellars b r accounts decimal sort_texts p w).0 ≡ ok tt
      → (g : ChainConfiguration) × (d : Publisher) × (get_chain_configuration_by_id b p.chain_id
            w.store
          ≡ some g)
        × (get_publisher accounts p.publisher_domain w.pubsub ≡ some d)
        × ((chain : ℕ) (a : b.Address)
            → has_cellar_id b chain a
                (handle_add_managed_cellars b r accounts decimal sort_texts p w).1.store
              ≡ (has_cellar_id b chain a w.store
                  || chain == g.id && names b.address_eq b.hex_to_address ids.ids a))
  handle_add_managed_cellars-has keeps p ids w named h =
      let (g, d, found, known, after) = handle_add_managed_cellars_ok p ids w named h in
      (
        g,
        d,
        found,
        known,
        λ chain a. rw after (
            has_cellar_id-or b g.id chain (sort_texts (map b.address_text (added g.id p ids.ids w)))
              a (names b.address_eq b.hex_to_address ids.ids a) w.store
              (is_in-sorted_texts b.address_eq b.hex_to_address b.address_text back sort_texts keeps
                (subscribe b r accounts decimal sort_texts p.chain_id p.publisher_domain) ids.ids
                (get_cellar_ids b g.id w.store) w.pubsub a)),
      )

  handle_remove_managed_cellars_ok :
      (p : RemoveAxelarManagedCellarIdsProposal) (ids : CellarIdSet)
      (w : World b r accounts decimal sort_texts)
      → p.cellar_ids ≡ some ids
      → (handle_remove_managed_cellars b r accounts decimal sort_texts p w).0 ≡ ok tt
      → (g : ChainConfiguration) × (get_chain_configuration_by_id b p.chain_id w.store ≡ some g)
        × ((handle_remove_managed_cellars b r accounts decimal sort_texts p w).1
            ≡ write_removed b r accounts decimal sort_texts g.id p.chain_id ids.ids w)
  unfolding handle_remove_managed_cellars
  handle_remove_managed_cellars_ok p ids w named h =
      elim (Option-cases (get_chain_configuration_by_id b p.chain_id w.store)) [
        | inl e ↦ absurd (ground (arith, e, h))
        | inr (g, e) ↦ elim (Option-cases (validate_cellar_id_set b r ids)) [
          | inl v ↦ (g, e, ground (arith, e, named, v))
          | inr (x, v) ↦ absurd (ground (arith, e, named, v, h))
        ]
      ]

  -- A removal that succeeds names a configured chain. If an address is read back from its text, then a
  -- cellar of that chain is managed exactly if it was and is not named, and one of another chain exactly
  -- if it was.
  pub handle_remove_managed_cellars-has :
      (p : RemoveAxelarManagedCellarIdsProposal) (ids : CellarIdSet)
      (w : World b r accounts decimal sort_texts)
      → p.cellar_ids ≡ some ids
      → (handle_remove_managed_cellars b r accounts decimal sort_texts p w).0 ≡ ok tt
      → (g : ChainConfiguration) × (get_chain_configuration_by_id b p.chain_id w.store ≡ some g)
        × ((chain : ℕ) (a : b.Address)
            → has_cellar_id b chain a
                (handle_remove_managed_cellars b r accounts decimal sort_texts p w).1.store
              ≡ (has_cellar_id b chain a w.store
                  && not (chain == g.id && names b.address_eq b.hex_to_address ids.ids a)))
  handle_remove_managed_cellars-has p ids w named h =
      let (g, found, after) = handle_remove_managed_cellars_ok p ids w named h in
      (
        g,
        found,
        λ chain a. rw after (
            has_cellar_id-and b g.id chain
              (keep_cellars b.address_eq b.hex_to_address b.address_text ids.ids
                (get_cellar_ids b g.id w.store))
              a (names b.address_eq b.hex_to_address ids.ids a) w.store
              (is_in-keep_cellars b.address_eq b.hex_to_address b.address_text back ids.ids
                (get_cellar_ids b g.id w.store) a)),
      )
