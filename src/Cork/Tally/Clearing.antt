-- ===== src/Cork/Tally/Clearing.antt =====
-- What a tally removes from the scheduled corks.
use sommelier.Base.{
  ℕ, ◌≡◌, refl, Bool, false, Option, none, List, [], ◌∷◌, arith, any, ◌==◌, nat_eq, if◌then◌else◌,
  ◌∙◌, Option-cases, Bool-cases, ap, inl, inr,
}
use sommelier.Base.Int.{pos}
use sommelier.Base.Exec.{ok, bind_ok}
use sommelier.Base.Table
use sommelier.Base.Table.{Key, Table, get-delete, same}
use sommelier.Base.Table.Ordered.{text_key}
use sommelier.Sdk.{Sdk}
use sommelier.Cork.Types.{ScheduledKey, Bridge, Cork, Corks, set_cork_result, id_hash}
use sommelier.Cork.Tally.{
  Votes, scheduled_at, count_votes, clear_vote, judge, add_vote, result_of,
  get_approved_scheduled_corks,
}

module _ ⦃sdk : Sdk⦄ (b : Bridge sdk.Decimal) where
  abbrev pub scheduled_cork : ScheduledKey b.Address → Corks b.Address → Option Cork
  scheduled_cork k s = Table.get ⦃key = b.scheduled_key⦄ k s.scheduled

  abbrev among : ScheduledKey b.Address → List (ScheduledKey b.Address × Cork) → Bool
  among k entries = any (λ e. same ⦃key = b.scheduled_key⦄ k e.0) entries

  cleared_one :
      (k j : ScheduledKey b.Address) (s : Corks b.Address)
      → scheduled_cork j (clear_vote b k s)
        ≡ (if same ⦃key = b.scheduled_key⦄ j k then none else scheduled_cork j s)
  cleared_one k j s = ground (arith, get-delete ⦃key = b.scheduled_key⦄ k j s.scheduled)

  cleared :
      (entries : List (ScheduledKey b.Address × Cork)) (votes v : Votes) (s : Corks b.Address)
      (j : ScheduledKey b.Address)
      → (count_votes b entries votes s).0 ≡ ok v
      → scheduled_cork j (count_votes b entries votes s).1
        ≡ (if among j entries then none else scheduled_cork j s)
  unfolding count_votes
  cleared [] votes v s j h = refl
  cleared ((k, c) ∷ entries) votes v s j h = elim (Option-cases (b.power k.1.1.0)) [
    | inl e ↦ absurd (ground arith)
    | inr (p, e) ↦
        ground (
          arith,
          e,
          cleared entries (add_vote b c p votes) v (clear_vote b k s) j,
          cleared_one k j s,
        )
  ]

  -- The entries of a height are those whose keys have it.
  among_other :
      (height : ℕ) (j : ScheduledKey b.Address) (t : Table (ScheduledKey b.Address) Cork)
      → (j.0 == height) ≡ false
      → among j (scheduled_at height t) ≡ false
  unfolding scheduled_at
  among_other height j [] h = refl
  among_other height j ((k, c) ∷ t) h = elim (Bool-cases (same ⦃key = b.scheduled_key⦄ j k)) [
    | inl e ↦
        ground
          (arith, e, ap (λ i. i.0) ((b.scheduled_key.eq.beq_iff j k).0 e), among_other height j t h)
    | inr e ↦ ground (arith, e, among_other height j t h)
  ]

  among_at :
      (height : ℕ) (j : ScheduledKey b.Address) (t : Table (ScheduledKey b.Address) Cork)
      → (if among j (scheduled_at height t) then none else Table.get ⦃key = b.scheduled_key⦄ j t)
        ≡ (if j.0 == height then none else Table.get ⦃key = b.scheduled_key⦄ j t)
  unfolding scheduled_at Table.get
  among_at height j [] = ground arith
  among_at height j ((k, c) ∷ t) = elim (Bool-cases (same ⦃key = b.scheduled_key⦄ j k)) [
    | inl e ↦
        ground
          (arith, e, ap (λ i. i.0) ((b.scheduled_key.eq.beq_iff j k).0 e), among_other height j t)
    | inr e ↦ ground (arith, e, among_at height j t)
  ]

  scheduled-judge :
      (height : ℕ) (votes : Votes) (s : Corks b.Address)
      → (judge b height votes s).1.scheduled ≡ s.scheduled
  unfolding judge
  scheduled-judge height [] s = refl
  scheduled-judge height ((c, p) ∷ votes) s =
      elim (Option-cases (sdk.quo (sdk.dec_int (pos p)) (sdk.dec_int b.total_power))) [
        | inl e ↦ ground (arith, e)
        | inr (share, e) ↦
            let s' = set_cork_result (id_hash b height c) (result_of b height c share) s in
            ground (arith, e, scheduled-judge height votes s')
      ]

  -- A tally that ends without a panic removes every cork that is scheduled for its height, and leaves
  -- the others as they are.
  pub get_approved_scheduled_corks-clears :
      (height : ℕ) (approved : List Cork) (s : Corks b.Address) (j : ScheduledKey b.Address)
      → (get_approved_scheduled_corks b height s).0 ≡ ok approved
      → scheduled_cork j (get_approved_scheduled_corks b height s).1
        ≡ (if j.0 == height then none else scheduled_cork j s)
  unfolding get_approved_scheduled_corks
  get_approved_scheduled_corks-clears height approved s j h =
      let entries = scheduled_at height s.scheduled in
      let (votes, e, same_run) = bind_ok (count_votes b entries []) (judge b height) s approved h in
      rw (same_run, scheduled-judge height votes)
        (cleared entries [] votes s j e ∙ among_at height j s.scheduled)
