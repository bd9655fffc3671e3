-- ===== src/AxelarCork/Tally/Expiry.antt =====
-- Which winning corks the EndBlocker of x/axelarcork leaves in the store.
use sommelier.Base.{
  ℕ, ◌≡◌, refl, sym, ap, ◌∙◌, true, none, List, [], ◌∷◌, any, leb, ◌==◌, nat_eq, arith, Bool-cases,
  inl, inr, if◌then◌else◌,
}
use mathlib.Core.Path.{subst}
use sommelier.Base.Word.{sub_u64}
use sommelier.Base.Exec.{ok, modify, for_each, ◌>>◌, bind_ok}
use sommelier.Base.Table
use sommelier.Base.Table.{
  Table, Entries, values, same, get-set, get-delete, set-Entries, delete-Entries,
}
use sommelier.Base.Table.Pair.{number}
use sommelier.Sdk.{Sdk}
use sommelier.AxelarCork.Types.{
  AxelarCork, ChainConfiguration, Chains, State, winning_key, contract_of,
}
use sommelier.AxelarCork.Tally.{
  winning_for, get_approved_scheduled_axelar_corks, store_winning, expire_winning, end_chain,
  end_blocker,
}
use sommelier.AxelarCork.Tally.Winning.{
  winning_at, IsKeyed, expire_winning_exact, store_winning_other, store_winning-Keeps,
  expire_winning-Keeps, get_approved-Keeps,
}

module _ ⦃sdk : Sdk⦄ (b : Chains sdk.Decimal) where
  -- What is stored of a chain's winners, and then expired.
  abbrev finish : ℕ → ℕ → List AxelarCork → State b → State b
  finish height chain winners s =
      let t = store_winning b chain height winners s in
      expire_winning b chain (sub_u64 height t.params.cork_timeout_blocks)
        (winning_for chain t.winning) t

  abbrev Expires : ℕ → ℕ → State b → State b → Type 0
  Expires height chain s t =
      ((c h : ℕ) (a : b.Address)
        → leb (sub_u64 height s.params.cork_timeout_blocks) h ≡ true
        → winning_at b c h a t ≡ (if c == chain then none else winning_at b c h a s))
      × IsKeyed b t
      × (t.params ≡ s.params)

  stored-IsKeyed :
      (height chain : ℕ) (winners : List AxelarCork) (s : State b)
      → IsKeyed b s
      → IsKeyed b (store_winning b chain height winners s)
  stored-IsKeyed height chain winners s keyed =
      store_winning-Keeps b (IsKeyed b) chain height
        (λ w u k.
          set-Entries ⦃key = winning_key b⦄ _ (chain, (height, contract_of b w)) w u.winning refl k)
        winners s keyed

  stored_params :
      (height chain : ℕ) (winners : List AxelarCork) (s : State b)
      → (store_winning b chain height winners s).params ≡ s.params
  stored_params height chain winners s =
      store_winning-Keeps b (λ u. u.params ≡ s.params) chain height (λ _ _ k. k) winners s refl

  finish-Expires :
      (height chain : ℕ) (winners : List AxelarCork) (s : State b)
      → IsKeyed b s
      → Expires height chain s (finish height chain winners s)
  finish-Expires height chain winners s keyed =
      let t = store_winning b chain height winners s in
      let timeout = sub_u64 height t.params.cork_timeout_blocks in
      let t_keyed = stored-IsKeyed height chain winners s keyed in
      let t_params = stored_params height chain winners s in
      let same_late = ap (λ q. sub_u64 height q.cork_timeout_blocks) t_params in
      (
        λ c h a late.
            expire_winning_exact b chain timeout t t_keyed c h a ∙ elim (Bool-cases (c == chain)) [
              | inl e ↦ let late' = ap (λ x. leb x h) same_late ∙ late in ground (arith, e, late')
              | inr e ↦
                  let other = store_winning_other b chain height winners s c h a e in
                  ground (arith, e, other)
            ],
        expire_winning-Keeps b (IsKeyed b) chain timeout
            (λ h w u k.
              delete-Entries ⦃key = winning_key b⦄ _ (chain, (h, contract_of b w)) u.winning k)
            (winning_for chain t.winning) t t_keyed,
        expire_winning-Keeps b (λ u. u.params ≡ s.params) chain timeout (λ _ _ _ k. k)
            (winning_for chain t.winning) t t_params,
      )

  -- A chain's part of `EndBlocker` that succeeds.
  end_chain-Expires :
      (height : ℕ) (g : ChainConfiguration) (s : State b)
      → IsKeyed b s
      → (end_chain b height g s).0 ≡ ok tt
      → Expires height g.id s (end_chain b height g s).1
  unfolding end_chain
  end_chain-Expires height g s keyed e =
      let m = get_approved_scheduled_axelar_corks b height g.id in
      let (winners, _, eq) =
        bind_ok m
          (λ winners.
            modify (store_winning b g.id height winners)
            >> modify (λ t.
              expire_winning b g.id (sub_u64 height t.params.cork_timeout_blocks)
                (winning_for g.id t.winning) t))
          s tt e in
      let s1 = (m s).1 in
      let kept =
        get_approved-Keeps b (λ t. (t.winning ≡ s.winning) × (t.params ≡ s.params)) (λ _ _ k. k)
          (λ _ _ k. k) height g.id s (refl, refl) in
      rw (ap (λ r. r.1) eq) (tallied height g.id winners s s1 kept.0 kept.1 keyed)
    where
      tallied :
          (height chain : ℕ) (winners : List AxelarCork) (s t : State b)
          → t.winning ≡ s.winning
          → t.params ≡ s.params
          → IsKeyed b s
          → Expires height chain s (finish height chain winners t)
      tallied height chain winners s t e f keyed =
          let t_keyed : IsKeyed b t =
            subst (λ w. Entries ⦃key = winning_key b⦄ (λ k c. k.1.1 ≡ contract_of b c) w) (sym e)
              keyed in
          let (lookups, after_keyed, after_params) =
            finish-Expires height chain winners t t_keyed in
          (
            λ c h a late.
                lookups c h a (ap (λ q. leb (sub_u64 height q.cork_timeout_blocks) h) f ∙ late)
                ∙ ap
                    (λ w.
                      if c == chain then none else Table.get ⦃key = winning_key b⦄ (c, (h, a)) w)
                    e,
            after_keyed,
            after_params ∙ f,
          )

  module _ (height timeout : ℕ) where
    -- All chains' parts, with a timeout that stays.
    end_chains :
        (gs : List ChainConfiguration) (s : State b)
        → IsKeyed b s
        → sub_u64 height s.params.cork_timeout_blocks ≡ timeout
        → (for_each (end_chain b height) gs s).0 ≡ ok tt
        → (c h : ℕ) (a : b.Address) → leb timeout h ≡ true
        → winning_at b c h a (for_each (end_chain b height) gs s).1
          ≡ (if any (λ g. c == g.id) gs then none else winning_at b c h a s)
    unfolding for_each
    end_chains [] s keyed q e c h a late = refl
    end_chains (g ∷ gs) s keyed q e c h a late =
        let (_, ran, eq) =
          bind_ok (end_chain b height g) (λ _. for_each (end_chain b height) gs) s tt e in
        let (lookups, after_keyed, after_params) = end_chain-Expires height g s keyed ran in
        let s1 = (end_chain b height g s).1 in
        let here = lookups c h a (ap (λ x. leb x h) q ∙ late) in
        let rest =
          end_chains gs s1 after_keyed
            (ap (λ p. sub_u64 height p.cork_timeout_blocks) after_params ∙ q)
            (sym (ap (λ r. r.0) eq) ∙ e) c h a late in
        ap (λ r. winning_at b c h a r.1) eq ∙ rest ∙ ground (arith, here)

  -- If `EndBlocker` succeeds in a store whose winning corks stand under their contracts, it leaves no
  -- winning cork of a configured chain at a height that is not below the cutoff, which is the block's height
  -- less `CorkTimeoutBlocks`, modulo 2 ^ 64. The winning corks of other chains at those heights are as they
  -- were.
  pub end_blocker_expires :
      (height : ℕ) (s : State b)
      → IsKeyed b s
      → (end_blocker b height s).0 ≡ ok tt
      → (c h : ℕ) (a : b.Address) → leb (sub_u64 height s.params.cork_timeout_blocks) h ≡ true
      → winning_at b c h a (end_blocker b height s).1 ≡ (
          if any (λ g. c == g.id) (values ⦃key = number⦄ s.configurations)
          then none
          else winning_at b c h a s)
  unfolding end_blocker
  end_blocker_expires height s keyed e c h a late =
      end_chains height (sub_u64 height s.params.cork_timeout_blocks)
        (values ⦃key = number⦄ s.configurations) s keyed refl e c h a late
