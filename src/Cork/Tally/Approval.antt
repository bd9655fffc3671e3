-- ===== src/Cork/Tally/Approval.antt =====
-- Which corks a tally approves.
use sommelier.Base.{
  ℕ, ◌^◌, ◌<◌, ◌≡◌, ◌≢◌, refl, Bool, false, ◌&&◌, Option, none, some, List, [], ◌∷◌, any, All,
  arith, Bool-cases, Option-cases, inl, inr, if◌then◌else◌,
}
use sommelier.Base.Int.{pos}
use sommelier.Base.Exec.{ok}
use sommelier.Sdk.{Sdk, lt}
use sommelier.Cork.Types.{Bridge, Cork, Corks, equals, id_hash, set_cork_result}
use sommelier.Cork.Tally.{
  Votes, scheduled_at, count_votes, clear_vote, judge, add_vote, threshold, result_of,
  get_approved_scheduled_corks,
}
use sommelier.Cork.Tally.Counting.{
  Entry, Distinct, vote_of, vote_of-equal, counted, counted-Distinct, vote_of-counted, is_backed,
  support,
}

module _ ⦃sdk : Sdk⦄ (b : Bridge sdk.Decimal) where
  -- The staking module knows every validator that votes.
  abbrev pub Known : List (Entry b) → Type 0
  Known entries = All (λ e. b.power e.0.1.1.0 ≢ none) entries

  count_votes-counted :
      (entries : List (Entry b)) (votes : Votes) (s : Corks b.Address)
      → Known entries
      → (count_votes b entries votes s).0 ≡ ok (counted b entries votes)
  unfolding count_votes counted
  count_votes-counted [] votes s h = refl
  count_votes-counted ((k, c) ∷ entries) votes s h = elim (Option-cases (b.power k.1.1.0)) [
    | inl e ↦ absurd (h.0 e)
    | inr (p, e) ↦
        ground (arith, e, count_votes-counted entries (add_vote b c p votes) (clear_vote b k s) h.1)
  ]

module _ ⦃sdk : Sdk⦄ (b : Bridge sdk.Decimal) (share : ℕ → sdk.Decimal)
    (divides : (p : ℕ)
      → sdk.quo (sdk.dec_int (pos p)) (sdk.dec_int b.total_power) ≡ some (share p)) where
  -- Whether a share of the power is enough.
  abbrev pub is_enough : ℕ → Bool
  is_enough p = lt (threshold b) (share p)

  judged : Votes → List Cork
  judged [] = []
  judged ((c, p) ∷ votes) = let rest = judged votes in if is_enough p then c ∷ rest else rest

  judge-judged :
      (height : ℕ) (votes : Votes) (s : Corks b.Address)
      → (judge b height votes s).0 ≡ ok (judged votes)
  unfolding judge judged
  judge-judged height [] s = refl
  judge-judged height ((c, p) ∷ votes) s =
      let s' = set_cork_result (id_hash b height c) (result_of b height c (share p)) s in
      ground (arith, divides p, judge-judged height votes s')

  -- An entry whose power is enough.
  abbrev passes : Option ℕ → Bool
  passes none = false
  passes (some p) = is_enough p

  any-judged :
      (x : Cork) (votes : Votes)
      → Distinct b votes
      → any (λ d. equals b d x) (judged votes) ≡ passes (vote_of b x votes)
  unfolding judged
  any-judged x [] h = refl
  any-judged x ((d, n) ∷ votes) h = elim (Bool-cases (equals b d x)) [
    | inl e ↦ ground (arith, e, vote_of-equal b d x votes e h.0, any-judged x votes h.1)
    | inr e ↦ ground (arith, e, any-judged x votes h.1)
  ]

  -- If every share of the total power can be computed and the staking module knows the validators that
  -- vote at a height, the tally does not panic, and it approves a cork whose voters at the height have
  -- powers that add up to less than 2 ^ 64 exactly if there is a voter and the share of those powers
  -- is above the threshold.
  pub get_approved_scheduled_corks-exact :
      (height : ℕ) (s : Corks b.Address)
      → Known b (scheduled_at height s.scheduled)
      → (approved : List Cork) × ((get_approved_scheduled_corks b height s).0 ≡ ok approved)
        × ((x : Cork)
            → support b x (scheduled_at height s.scheduled) < 2 ^ 64
            → any (λ d. equals b d x) approved ≡ (
                is_backed b x (scheduled_at height s.scheduled)
                && is_enough (support b x (scheduled_at height s.scheduled))))
  unfolding get_approved_scheduled_corks
  get_approved_scheduled_corks-exact height s known =
      let entries = scheduled_at height s.scheduled in
      let votes = counted b entries [] in
      let s' = (count_votes b entries [] s).1 in
      (
        judged votes,
        ground (arith, count_votes-counted b entries [] s known, judge-judged height votes s'),
        λ x small. ground (
          arith,
          any-judged x votes (counted-Distinct b entries [] tt),
          vote_of-counted b x entries [] (omega arith),
        ),
      )
