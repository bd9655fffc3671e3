-- ===== src/Cork/Invariant/Chain.antt =====
-- The steps of x/cork, by messages, proposals and the ends of blocks, and what holds of every store that
-- they reach.
use sommelier.Base.{
  ℕ, suc, ◌<◌, ◌≡◌, ◌⊎◌, leb, refl, String, none, some, List, [], ◌∷◌, arith, ◌==◌, nat_eq,
  if◌then◌else◌, Option-cases, Bool-cases, inl, inr,
}
use sommelier.Base.Exec.{ok, bind_ok}
use sommelier.Base.Table.{Entries-zip}
use sommelier.Base.Table.Ordered.{KeyLaws, Ordered-get}
use sommelier.Sdk.{Sdk}
use sommelier.Cork.Types.{
  ScheduledKey, Bridge, Cork, Corks, set_scheduled_cork, increment_validator_cork_count,
  increment_invalidation_nonce, has_cellar_id, address_of,
}
use sommelier.Cork.Tally.{submit_contract_calls, end_blocker, get_approved_scheduled_corks}
use sommelier.Cork.Tally.Clearing.{scheduled_cork, get_approved_scheduled_corks-clears}
use sommelier.Cork.Scheduling.{MsgScheduleCorkRequest, schedule_cork}
use sommelier.Cork.Cellars.{CellarWorld, add_managed_cellars, remove_managed_cellars}
use sommelier.Cork.Invariant.{
  ScheduledAt, IsCurrent, IsCurrent-tables, set_scheduled_cork-IsCurrent, end_blocker-IsCurrent,
}

module _ ⦃sdk : Sdk⦄ (b : Bridge sdk.Decimal) (sort_texts : List String → List String) where
  -- A call of `ScheduleCork`, a proposal on the cellars, or the end of a block, after which the height is
  -- one higher. A block whose `EndBlocker` panics does not end.
  pub data Step : ℕ → Corks b.Address → ℕ → Corks b.Address → Type 0 where
    schedules :
        (h : ℕ) (s : Corks b.Address) (m : MsgScheduleCorkRequest)
        → Step h s h (schedule_cork b h m s).1
    adds :
        (h : ℕ) (w : CellarWorld b.Address) (domain : String) (ids : List String)
        → Step h w.corks h (add_managed_cellars b sort_texts domain ids w).1.corks
    removes :
        (h : ℕ) (w : CellarWorld b.Address) (ids : List String)
        → Step h w.corks h (remove_managed_cellars b ids w).corks
    ends_block :
        (h : ℕ) (s : Corks b.Address)
        → (end_blocker b h s).0 ≡ ok tt
        → Step h s (suc h) (end_blocker b h s).1

  pub data Reach (h : ℕ) (s : Corks b.Address) : ℕ → Corks b.Address → Type 0 where
    here : Reach h s h s
    next : {i j : ℕ} {t u : Corks b.Address} → Reach h s i t → Step i t j u → Reach h s j u

module _ ⦃sdk : Sdk⦄ (b : Bridge sdk.Decimal)
    (laws : KeyLaws (ScheduledKey b.Address) ⦃key = b.scheduled_key⦄) where
  scheduled-submit :
      (corks : List Cork) (s : Corks b.Address)
      → (submit_contract_calls b corks s).1.scheduled ≡ s.scheduled
  unfolding submit_contract_calls
  scheduled-submit [] s = refl
  scheduled-submit (c ∷ corks) s = scheduled-submit corks (increment_invalidation_nonce s)

  -- After the end of a block no cork is left at its height.
  emptied :
      (h : ℕ) (s : Corks b.Address) (k : ScheduledKey b.Address)
      → (end_blocker b h s).0 ≡ ok tt
      → scheduled_cork b k (end_blocker b h s).1 ≡ (if k.0 == h then none else scheduled_cork b k s)
  unfolding end_blocker
  emptied h s k e =
      let (winning, tallied, same_run) =
        bind_ok (get_approved_scheduled_corks b h) (λ winning. submit_contract_calls b winning) s tt
          e in
      rw (same_run, scheduled-submit winning (get_approved_scheduled_corks b h s).1)
        (get_approved_scheduled_corks-clears b h winning s k tallied)

  later :
      (h : ℕ) (s : Corks b.Address) (k : ScheduledKey b.Address) (c : Cork)
      → (end_blocker b h s).0 ≡ ok tt
      → ScheduledAt b h k c
      → scheduled_cork b k (end_blocker b h s).1 ≡ some c
      → ScheduledAt b (suc h) k c
  later h s k c e at found = (ground (arith, emptied h s k e, found, at.0), at.1, at.2)

  -- Where the end of a block succeeds, the invariant holds at the next height.
  end_blocker-advances :
      (h : ℕ) (s : Corks b.Address)
      → (end_blocker b h s).0 ≡ ok tt
      → IsCurrent b h s
      → IsCurrent b (suc h) (end_blocker b h s).1
  end_blocker-advances h s e c =
      let after = end_blocker-IsCurrent b laws h h s c in
      let t = (end_blocker b h s).1 in
      record {
        scheduled_at_keys =
            Entries-zip ⦃key = b.scheduled_key⦄ (ScheduledAt b h)
              (λ k d. scheduled_cork b k t ≡ some d) (ScheduledAt b (suc h)) t.scheduled
              (λ k d at found. later h s k d e at found) after.scheduled_at_keys
              (Ordered-get ⦃key = b.scheduled_key⦄ laws t.scheduled after.scheduled_ordered);
        scheduled_ordered = after.scheduled_ordered;
        results_at_ids = after.results_at_ids;
        results_ordered = after.results_ordered;
      }

  -- A call changes nothing, or it schedules a cork for a height to come.
  schedule_cork_either :
      (h : ℕ) (s : Corks b.Address) (m : MsgScheduleCorkRequest)
      → ((schedule_cork b h m s).1 ≡ s)
        ⊎ ((val : String) × (h < m.block_height)
            × ((schedule_cork b h m s).1
                ≡ increment_validator_cork_count val
                    (set_scheduled_cork b m.block_height val m.cork s)))
  unfolding schedule_cork
  schedule_cork_either h s m = elim (Option-cases (sdk.acc_address m.signer)) [
    | inl e ↦ inl (ground (arith, e))
    | inr (signer, e) ↦ elim (Option-cases (b.orchestrator_validator signer)) [
      | inl f ↦ inl (ground (arith, e, f))
      | inr (val, f) ↦ elim (Bool-cases (has_cellar_id b (address_of b m.cork) s)) [
        | inr g ↦ inl (ground (arith, e, f, g))
        | inl g ↦ elim (Bool-cases (leb m.block_height h)) [
          | inl past ↦ inl (ground (arith, e, f, g, past))
          | inr ahead ↦ inr (val, ground (arith, ahead), ground (arith, e, f, g, ahead))
        ]
      ]
    ]
  ]

  schedule_cork-IsCurrent :
      (h : ℕ) (s : Corks b.Address) (m : MsgScheduleCorkRequest)
      → IsCurrent b h s
      → IsCurrent b h (schedule_cork b h m s).1
  schedule_cork-IsCurrent h s m c = elim (schedule_cork_either h s m) [
    | inl same ↦ rw same c
    | inr (val, ahead, after) ↦
        let t = set_scheduled_cork b m.block_height val m.cork s in
        rw after (
          IsCurrent-tables b h t (increment_validator_cork_count val t) refl refl (
            set_scheduled_cork-IsCurrent b laws h m.block_height val m.cork s (omega (arith, ahead))
              c))
  ]

module _ ⦃sdk : Sdk⦄ (b : Bridge sdk.Decimal) (sort_texts : List String → List String)
    (laws : KeyLaws (ScheduledKey b.Address) ⦃key = b.scheduled_key⦄) where
  Step-IsCurrent :
      {h i : ℕ} {s t : Corks b.Address}
      → Step b sort_texts h s i t
      → IsCurrent b h s
      → IsCurrent b i t
  unfolding add_managed_cellars remove_managed_cellars
  Step-IsCurrent (schedules h s m) c = schedule_cork-IsCurrent b laws h s m c
  Step-IsCurrent (adds h w domain ids) c =
      IsCurrent-tables b h w.corks (add_managed_cellars b sort_texts domain ids w).1.corks
        (ground arith) (ground arith) c
  Step-IsCurrent (removes h w ids) c =
      IsCurrent-tables b h w.corks (remove_managed_cellars b ids w).corks refl refl c
  Step-IsCurrent (ends_block h s e) c = end_blocker-advances b laws h s e c

  -- If the order of the scheduled corks' keys is strict and total, then every store of x/cork that
  -- `ScheduleCork`, the proposals on cellars and the ends of blocks reach from a store that is current at
  -- its height is current at the height reached: every scheduled cork is for that height or a later one,
  -- each cork and each result stands under its own key, and the keys ascend.
  pub Reach-IsCurrent :
      {h : ℕ} {s : Corks b.Address} {i : ℕ} {t : Corks b.Address}
      → IsCurrent b h s
      → Reach b sort_texts h s i t
      → IsCurrent b i t
  Reach-IsCurrent c here = c
  Reach-IsCurrent c (next r st) = Step-IsCurrent st (Reach-IsCurrent c r)
