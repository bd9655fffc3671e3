-- ===== src/AxelarCork/Tally/Winning.antt =====
-- The loops over the winning corks of x/axelarcork, and what its tally leaves alone.
use sommelier.Base.{
  ℕ, ◌≡◌, refl, ap, ◌∙◌, String, Bool, false, ◌&&◌, Option, none, List, [], ◌∷◌, any, leb, ◌==◌,
  nat_eq, arith, Bool-cases, Option-cases, inl, inr, if◌then◌else◌, if_rule,
}
use sommelier.Base.Exec.{pure, bind_rule}
use sommelier.Base.Table
use sommelier.Base.Table.{
  Table, Entries, values, same, get-set, get-delete, set-Entries, delete-Entries,
}
use sommelier.Base.Table.Prefix.{is_some}
use sommelier.Base.Int.{pos}
use sommelier.Sdk.{Sdk, lt}
use sommelier.AxelarCork.Types.{
  AxelarCork, AxelarCorkResult, Chains, State, id_hash, set_axelar_cork_result, winning_key,
  contract_of, set_winning_axelar_cork, delete_winning_axelar_cork_by_blockheight,
}
use sommelier.AxelarCork.Tally.{
  AxelarVotes, ScheduledKey, winning_for, scheduled_for, count_axelar_votes, judge_axelar,
  get_approved_scheduled_axelar_corks, store_winning, expire_winning, add_axelar_vote,
  axelar_threshold, axelar_result_of,
}

module _ {Decimal : Type 0} (b : Chains Decimal) where
  abbrev pub winning_at : ℕ → ℕ → b.Address → State b → Option AxelarCork
  winning_at chain height a s = Table.get ⦃key = winning_key b⦄ (chain, (height, a)) s.winning

  -- A winning cork stands under its contract.
  abbrev pub IsKeyed : State b → Type 0
  IsKeyed s = Entries ⦃key = winning_key b⦄ (λ k c. k.1.1 ≡ contract_of b c) s.winning

module _ ⦃sdk : Sdk⦄ (b : Chains sdk.Decimal) where
  abbrev Winning : Type 0
  Winning = List ((ℕ × (ℕ × b.Address)) × AxelarCork)

  -- The entry that the loop over a chain deletes, and that stands under a key.
  abbrev expired : ℕ → ℕ → ℕ → ℕ → b.Address → (ℕ × (ℕ × b.Address)) × AxelarCork → Bool
  expired chain timeout c h a e =
      leb timeout e.0.1.0
      && same ⦃key = winning_key b⦄ (c, (h, a)) (chain, (e.0.1.0, contract_of b e.1))

  winning_at-expire_winning :
      (chain timeout : ℕ) (l : Winning) (c h : ℕ) (a : b.Address) (s : State b)
      → winning_at b c h a (expire_winning b chain timeout l s)
        ≡ (if any (expired chain timeout c h a) l then none else winning_at b c h a s)
  unfolding expire_winning
  winning_at-expire_winning chain timeout [] c h a s = refl
  winning_at-expire_winning chain timeout ((k, w) ∷ l) c h a s =
      elim (Bool-cases (leb timeout k.1.0)) [
        | inl e ↦ ground (
          arith,
          e,
          winning_at-expire_winning chain timeout l c h a
              (delete_winning_axelar_cork_by_blockheight b chain k.1.0 w s),
          get-delete ⦃key = winning_key b⦄ (chain, (k.1.0, contract_of b w)) (c, (h, a)) s.winning,
        )
        | inr e ↦ ground (arith, e, winning_at-expire_winning chain timeout l c h a s)
      ]

  any-expired :
      (chain timeout c h : ℕ) (a : b.Address) (t : Table (ℕ × (ℕ × b.Address)) AxelarCork)
      → Entries ⦃key = winning_key b⦄ (λ k w. k.1.1 ≡ contract_of b w) t
      → any (expired chain timeout c h a) (winning_for chain t)
        ≡ (c == chain && (leb timeout h && is_some (Table.get ⦃key = winning_key b⦄ (c, (h, a)) t)))
  unfolding winning_for Table.get
  any-expired chain timeout c h a [] e = ground arith
  any-expired chain timeout c h a ((k, w) ∷ t) e =
      let rest = any-expired chain timeout c h a t e.1 in
      let at = ap (λ x. b.address_eq.beq a x) e.0 in ground (arith, rest, at)

  -- The loop removes from the chain exactly the winning corks at the timeout's height and above it.
  pub expire_winning_exact :
      (chain timeout : ℕ) (s : State b)
      → IsKeyed b s
      → (c h : ℕ) (a : b.Address)
      → winning_at b c h a (expire_winning b chain timeout (winning_for chain s.winning) s)
        ≡ (if c == chain && leb timeout h then none else winning_at b c h a s)
  expire_winning_exact chain timeout s keyed c h a =
      winning_at-expire_winning chain timeout (winning_for chain s.winning) c h a s
      ∙ rw (any-expired chain timeout c h a s.winning keyed)
          (ground (arith, Option-cases (winning_at b c h a s)))

  pub store_winning_other :
      (chain height : ℕ) (l : List AxelarCork) (s : State b) (c h : ℕ) (a : b.Address)
      → (c == chain) ≡ false
      → winning_at b c h a (store_winning b chain height l s) ≡ winning_at b c h a s
  unfolding store_winning
  store_winning_other chain height [] s c h a other = refl
  store_winning_other chain height (w ∷ l) s c h a other =
      store_winning_other chain height l (set_winning_axelar_cork b chain height w s) c h a other
      ∙ ground (
        arith,
        other,
        get-set ⦃key = winning_key b⦄ (chain, (height, contract_of b w)) (c, (h, a)) w s.winning,
      )

  -- What both loops keep.
  pub store_winning-Keeps :
      (P : State b → Type 0) (chain height : ℕ)
      → ((w : AxelarCork) (s : State b) → P s → P (set_winning_axelar_cork b chain height w s))
      → (l : List AxelarCork) (s : State b) → P s
      → P (store_winning b chain height l s)
  unfolding store_winning
  store_winning-Keeps P chain height step [] s p = p
  store_winning-Keeps P chain height step (w ∷ l) s p =
      store_winning-Keeps P chain height step l _ (step w s p)

  pub expire_winning-Keeps :
      (P : State b → Type 0) (chain timeout : ℕ)
      → ((h : ℕ) (w : AxelarCork) (s : State b)
          → P s
          → P (delete_winning_axelar_cork_by_blockheight b chain h w s))
      → (l : Winning) (s : State b) → P s
      → P (expire_winning b chain timeout l s)
  unfolding expire_winning
  expire_winning-Keeps P chain timeout step [] s p = p
  expire_winning-Keeps P chain timeout step ((k, w) ∷ l) s p =
      expire_winning-Keeps P chain timeout step l _ (
        if_rule P (leb timeout k.1.0) (delete_winning_axelar_cork_by_blockheight b chain k.1.0 w s)
          s (step k.1.0 w s p) p)

  -- A tally changes the scheduled corks and the results alone.
  count_axelar_votes-Keeps :
      (P : State b → Type 0)
      → ((t : Table (ScheduledKey b.Address) AxelarCork) (s : State b)
          → P s
          → P (record s { scheduled = t }))
      → (l : List (ScheduledKey b.Address × AxelarCork)) (votes : AxelarVotes) (s : State b) → P s
      → P (count_axelar_votes b l votes s).1
  unfolding count_axelar_votes
  count_axelar_votes-Keeps P step [] votes s p = p
  count_axelar_votes-Keeps P step ((k, c) ∷ l) votes s p = elim (Option-cases (b.power k.1.1.1.0)) [
    | inl e ↦ rw e p
    | inr (power, e) ↦
        rw e (count_axelar_votes-Keeps P step l (add_axelar_vote b c power votes) _ (step _ s p))
  ]

  judge_axelar-Keeps :
      (P : State b → Type 0)
      → ((t : Table (ℕ × String) AxelarCorkResult) (s : State b)
          → P s
          → P (record s { results = t }))
      → (chain height : ℕ) (votes : AxelarVotes) (s : State b) → P s
      → P (judge_axelar b chain height votes s).1
  unfolding judge_axelar
  judge_axelar-Keeps P step chain height [] s p = p
  judge_axelar-Keeps P step chain height ((c, power) ∷ votes) s p =
      elim (Option-cases (sdk.quo (sdk.dec_int (pos power)) (sdk.dec_int b.total_power))) [
        | inl e ↦ rw e p
        | inr (share, e) ↦
            let stored =
              set_axelar_cork_result b chain (id_hash b height c)
                (axelar_result_of b height c share) s in
            let kept = judge_axelar-Keeps P step chain height votes stored (step _ s p) in
            rw e (
              bind_rule P (judge_axelar b chain height votes)
                (λ approved.
                  pure (if lt (axelar_threshold b) share then c ∷ approved else approved))
                stored kept (λ _ _. kept))
      ]

  pub get_approved-Keeps :
      (P : State b → Type 0)
      → ((t : Table (ScheduledKey b.Address) AxelarCork) (s : State b)
          → P s
          → P (record s { scheduled = t }))
      → ((t : Table (ℕ × String) AxelarCorkResult) (s : State b)
          → P s
          → P (record s { results = t }))
      → (height chain : ℕ) (s : State b) → P s
      → P (get_approved_scheduled_axelar_corks b height chain s).1
  unfolding get_approved_scheduled_axelar_corks
  get_approved-Keeps P scheduled results height chain s p =
      bind_rule P (count_axelar_votes b (scheduled_for chain height s.scheduled) [])
        (judge_axelar b chain height) s
        (count_axelar_votes-Keeps P scheduled (scheduled_for chain height s.scheduled) [] s p)
        (λ votes _.
          judge_axelar-Keeps P results chain height votes _
            (count_axelar_votes-Keeps P scheduled (scheduled_for chain height s.scheduled) [] s p))
