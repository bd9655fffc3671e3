-- ===== src/Cork/Invariant.antt =====
-- The invariant of the store of x/cork at a height, and the writes that keep it.
pub mod Chain
use sommelier.Base.{
  ℕ, ◌≤◌, ◌≡◌, refl, String, List, [], ◌∷◌, ltb, Option-cases, if_rule, inl, inr, if◌then◌else◌,
}
use sommelier.Base.Int.{pos}
use sommelier.Base.Exec.{bind_rule, pure}
use sommelier.Base.Table
use sommelier.Base.Table.{Entries, set-Entries, delete-Entries}
use sommelier.Base.Table.Ordered.{KeyLaws, Ordered, set-Ordered, delete-Ordered, text_key}
use sommelier.Base.Table.Text.{text_laws}
use sommelier.Sdk.{Sdk, lt}
use sommelier.Cork.Types.{
  ScheduledKey, Bridge, Cork, CorkResult, Corks, address_of, id_hash, set_scheduled_cork,
  set_cork_result, delete_scheduled_cork, get_validator_cork_count, increment_invalidation_nonce,
}
use sommelier.Cork.Tally.{
  Votes, count_votes, clear_vote, judge, add_vote, result_of, threshold, submit_contract_calls,
  end_blocker, get_approved_scheduled_corks, scheduled_at,
}

module _ {Decimal : Type 0} (b : Bridge Decimal) where
  -- The keys of a scheduled cork: its height is not past, its id and contract are the cork's.
  abbrev pub ScheduledAt : ℕ → ScheduledKey b.Address → Cork → Type 0
  ScheduledAt height k c = (height ≤ k.0) × (k.1.0 ≡ id_hash b k.0 c) × (k.1.1.1 ≡ address_of b c)

  abbrev pub ResultAt : String → CorkResult → Type 0
  ResultAt id r = id_hash b r.block_height r.cork ≡ id

  -- Every scheduled cork is for this height or a later one and stands under its own key, every result
  -- under its cork's id, and the keys ascend.
  pub record IsCurrent (height : ℕ) (s : Corks b.Address) : Type 0 where
    pub scheduled_at_keys : Entries ⦃key = b.scheduled_key⦄ (ScheduledAt height) s.scheduled
    pub scheduled_ordered : Ordered ⦃key = b.scheduled_key⦄ s.scheduled
    pub results_at_ids : Entries ResultAt s.results
    pub results_ordered : Ordered s.results

module _ {Decimal : Type 0} (b : Bridge Decimal) (height : ℕ) where
  -- The cellars, the nonce and the counts are not read.
  pub IsCurrent-tables :
      (s t : Corks b.Address)
      → t.scheduled ≡ s.scheduled
      → t.results ≡ s.results
      → IsCurrent b height s
      → IsCurrent b height t
  IsCurrent-tables s t e f h = record {
    scheduled_at_keys = rw e h.scheduled_at_keys;
    scheduled_ordered = rw e h.scheduled_ordered;
    results_at_ids = rw f h.results_at_ids;
    results_ordered = rw f h.results_ordered;
  }

module _ {Decimal : Type 0} (b : Bridge Decimal)
    (laws : KeyLaws (ScheduledKey b.Address) ⦃key = b.scheduled_key⦄) (height : ℕ) where
  pub set_scheduled_cork-IsCurrent :
      (at : ℕ) (val : String) (c : Cork) (s : Corks b.Address)
      → height ≤ at
      → IsCurrent b height s
      → IsCurrent b height (set_scheduled_cork b at val c s)
  set_scheduled_cork-IsCurrent at val c s le h =
      let k : ScheduledKey b.Address = (at, (id_hash b at c, (val, address_of b c))) in
      record {
        scheduled_at_keys =
            set-Entries ⦃key = b.scheduled_key⦄ (ScheduledAt b height) k c s.scheduled
              (le, refl, refl) h.scheduled_at_keys;
        scheduled_ordered =
            set-Ordered ⦃key = b.scheduled_key⦄ laws k c s.scheduled h.scheduled_ordered;
        results_at_ids = h.results_at_ids;
        results_ordered = h.results_ordered;
      }

  pub set_cork_result-IsCurrent :
      (r : CorkResult) (s : Corks b.Address)
      → IsCurrent b height s
      → IsCurrent b height (set_cork_result (id_hash b r.block_height r.cork) r s)
  set_cork_result-IsCurrent r s h =
      let id = id_hash b r.block_height r.cork in
      record {
        scheduled_at_keys = h.scheduled_at_keys;
        scheduled_ordered = h.scheduled_ordered;
        results_at_ids = set-Entries (ResultAt b) id r s.results refl h.results_at_ids;
        results_ordered = set-Ordered text_laws id r s.results h.results_ordered;
      }

module _ ⦃sdk : Sdk⦄ (b : Bridge sdk.Decimal)
    (laws : KeyLaws (ScheduledKey b.Address) ⦃key = b.scheduled_key⦄) (height : ℕ) where
  clear_vote-IsCurrent :
      (k : ScheduledKey b.Address) (s : Corks b.Address)
      → IsCurrent b height s
      → IsCurrent b height (clear_vote b k s)
  clear_vote-IsCurrent k s h =
      let t = delete_scheduled_cork b k s in
      let d : IsCurrent b height t = record {
        scheduled_at_keys =
            delete-Entries ⦃key = b.scheduled_key⦄ (ScheduledAt b height) k s.scheduled
              h.scheduled_at_keys;
        scheduled_ordered =
            delete-Ordered ⦃key = b.scheduled_key⦄ laws k s.scheduled h.scheduled_ordered;
        results_at_ids = h.results_at_ids;
        results_ordered = h.results_ordered;
      } in
      if_rule (IsCurrent b height) (ltb 0 (get_validator_cork_count k.1.1.0 t)) _ _
        (IsCurrent-tables b height t _ refl refl d) d

  count_votes-IsCurrent :
      (entries : List (ScheduledKey b.Address × Cork)) (votes : Votes) (s : Corks b.Address)
      → IsCurrent b height s
      → IsCurrent b height (count_votes b entries votes s).1
  unfolding count_votes
  count_votes-IsCurrent [] votes s h = h
  count_votes-IsCurrent ((k, c) ∷ entries) votes s h = elim (Option-cases (b.power k.1.1.0)) [
    | inl e ↦ rw (e, count_votes) h
    | inr (p, e) ↦
        rw (e, count_votes)
          (count_votes-IsCurrent entries (add_vote b c p votes) (clear_vote b k s)
            (clear_vote-IsCurrent k s h))
  ]

  judge-IsCurrent :
      (at : ℕ) (votes : Votes) (s : Corks b.Address)
      → IsCurrent b height s
      → IsCurrent b height (judge b at votes s).1
  unfolding judge
  judge-IsCurrent at [] s h = h
  judge-IsCurrent at ((c, p) ∷ votes) s h =
      elim (Option-cases (sdk.quo (sdk.dec_int (pos p)) (sdk.dec_int b.total_power))) [
        | inl e ↦ rw (e, judge) h
        | inr (share, e) ↦
            let s' = set_cork_result (id_hash b at c) (result_of b at c share) s in
            rw (e, judge)
              (bind_rule (IsCurrent b height) (judge b at votes)
                (λ approved. pure (if lt (threshold b) share then c ∷ approved else approved)) s'
                (judge-IsCurrent at votes s'
                  (set_cork_result-IsCurrent b laws height (result_of b at c share) s h))
                (λ approved _.
                  judge-IsCurrent at votes s'
                    (set_cork_result-IsCurrent b laws height (result_of b at c share) s h)))
      ]

  submit-IsCurrent :
      (corks : List Cork) (s : Corks b.Address)
      → IsCurrent b height s
      → IsCurrent b height (submit_contract_calls b corks s).1
  unfolding submit_contract_calls
  submit-IsCurrent [] s h = h
  submit-IsCurrent (c ∷ corks) s h =
      submit-IsCurrent corks (increment_invalidation_nonce s)
        (IsCurrent-tables b height s (increment_invalidation_nonce s) refl refl h)

  -- A tally keeps the invariant however it ends.
  tally-IsCurrent :
      (at : ℕ) (s : Corks b.Address)
      → IsCurrent b height s
      → IsCurrent b height (get_approved_scheduled_corks b at s).1
  unfolding get_approved_scheduled_corks
  tally-IsCurrent at s h =
      let counted = count_votes-IsCurrent (scheduled_at at s.scheduled) [] s h in
      bind_rule (IsCurrent b height) (count_votes b (scheduled_at at s.scheduled) [])
        (λ votes. judge b at votes) s counted (λ votes _. judge-IsCurrent at votes _ counted)

  -- So does `EndBlocker`.
  pub end_blocker-IsCurrent :
      (at : ℕ) (s : Corks b.Address)
      → IsCurrent b height s
      → IsCurrent b height (end_blocker b at s).1
  unfolding end_blocker
  end_blocker-IsCurrent at s h =
      bind_rule (IsCurrent b height) (get_approved_scheduled_corks b at)
        (λ winning. submit_contract_calls b winning) s (tally-IsCurrent at s h)
        (λ winning _. submit-IsCurrent winning _ (tally-IsCurrent at s h))
