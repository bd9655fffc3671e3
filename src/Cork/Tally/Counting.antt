-- ===== src/Cork/Tally/Counting.antt =====
-- What the counting of votes keeps for each cork: one entry, with the powers of those who voted for it.
use sommelier.Base.{
  ℕ, ◌+◌, ◌%◌, ◌^◌, ◌<◌, ◌≡◌, refl, Bool, true, false, Option, none, some, List, [], ◌∷◌, any,
  arith, Bool-cases, Option-cases, inl, inr, if◌then◌else◌, string_eq,
}
use text.Mathlib.TextEquality.{eq_iff}
use sommelier.Sdk.{Sdk}
use sommelier.Cork.Types.{ScheduledKey, Bridge, Cork, equals, address_of}
use sommelier.Cork.Tally.{Votes, add_vote}

module _ ⦃sdk : Sdk⦄ (b : Bridge sdk.Decimal) where
  -- Corks that are equal are equal to the same corks.
  equals_left : (d c x : Cork) → equals b d c ≡ true → equals b d x ≡ equals b c x
  equals_left d c x h = ground (
    arith,
    h,
    b.address_eq.beq_iff (address_of b d) (address_of b c),
    eq_iff d.encoded_contract_call c.encoded_contract_call,
  )

  equals_join : (d c x : Cork) → equals b d x ≡ true → equals b c x ≡ true → equals b d c ≡ true
  equals_join d c x h k = ground (
    arith,
    h,
    k,
    b.address_eq.beq_iff (address_of b d) (address_of b x),
    b.address_eq.beq_iff (address_of b c) (address_of b x),
    b.address_eq.beq_iff (address_of b d) (address_of b c),
    eq_iff d.encoded_contract_call x.encoded_contract_call,
    eq_iff c.encoded_contract_call x.encoded_contract_call,
    eq_iff d.encoded_contract_call c.encoded_contract_call,
  )

  equals_self : (c : Cork) → equals b c c ≡ true
  equals_self c = ground (
    arith,
    b.address_eq.beq_iff (address_of b c) (address_of b c),
    eq_iff c.encoded_contract_call c.encoded_contract_call,
  )

  equals_sym : (d c : Cork) → equals b d c ≡ false → equals b c d ≡ false
  equals_sym d c h = ground (arith, h, equals_join d c d, equals_self d)

  -- The power of the first entry for a cork.
  abbrev pub vote_of : Cork → Votes → Option ℕ
  vote_of x [] = none
  vote_of x ((d, n) ∷ votes) = if equals b d x then some n else vote_of x votes

  -- A power with another one added, as a uint64.
  abbrev pub plus : Option ℕ → ℕ → ℕ
  plus none p = p
  plus (some n) p = (n + p) % 2 ^ 64

  vote_of-add_vote :
      (c x : Cork) (p : ℕ) (votes : Votes)
      → vote_of x (add_vote b c p votes)
        ≡ (if equals b c x then some (plus (vote_of x votes) p) else vote_of x votes)
  unfolding add_vote
  vote_of-add_vote c x p [] = refl
  vote_of-add_vote c x p ((d, n) ∷ votes) = elim (Bool-cases (equals b d c)) [
    | inl e ↦ ground (arith, e, equals_left d c x e)
    | inr e ↦ ground (arith, e, equals_join d c x, vote_of-add_vote c x p votes)
  ]

  pub vote_of-equal :
      (d x : Cork) (votes : Votes)
      → equals b d x ≡ true
      → vote_of d votes ≡ none
      → vote_of x votes ≡ none
  vote_of-equal d x [] h e = refl
  vote_of-equal d x ((c, n) ∷ votes) h e =
      ground (arith, h, e, equals_join c d x, vote_of-equal d x votes h)

  -- No cork has two entries.
  abbrev pub Distinct : Votes → Type 0
  Distinct [] = Unit
  Distinct ((d, n) ∷ votes) = (vote_of d votes ≡ none) × Distinct votes

  add_vote-Distinct :
      (c : Cork) (p : ℕ) (votes : Votes) → Distinct votes → Distinct (add_vote b c p votes)
  unfolding add_vote
  add_vote-Distinct c p [] h = (refl, tt)
  add_vote-Distinct c p ((d, n) ∷ votes) h = elim (Bool-cases (equals b d c)) [
    | inl e ↦ ground (arith, e, h)
    | inr e ↦ ground (
      arith,
      e,
      h,
      equals_sym d c e,
      vote_of-add_vote c d p votes,
      add_vote-Distinct c p votes h.1,
    )
  ]

  -- The entries of the votes, each with its validator's power.
  abbrev pub Entry : Type 0
  Entry = ScheduledKey b.Address × Cork

  abbrev pub power_of : ScheduledKey b.Address → ℕ
  power_of k = elim (b.power k.1.1.0) [ none ↦ 0 | some n ↦ n ]

  -- Whether someone votes for a cork, and the sum of the powers that do.
  abbrev pub is_backed : Cork → List Entry → Bool
  is_backed x entries = any (λ e. equals b e.1 x) entries

  abbrev pub support : Cork → List Entry → ℕ
  support x [] = 0
  support x ((k, d) ∷ entries) =
      let rest = support x entries in if equals b d x then power_of k + rest else rest

  -- The votes that are counted.
  unfoldable pub counted : List Entry → Votes → Votes
  counted [] votes = votes
  counted ((k, c) ∷ entries) votes = counted entries (add_vote b c (power_of k) votes)

  pub counted-Distinct :
      (entries : List Entry) (votes : Votes) → Distinct votes → Distinct (counted entries votes)
  unfolding counted
  counted-Distinct [] votes h = h
  counted-Distinct ((k, c) ∷ entries) votes h =
      counted-Distinct entries (add_vote b c (power_of k) votes)
        (add_vote-Distinct c (power_of k) votes h)

  unbacked : (x : Cork) (entries : List Entry) → is_backed x entries ≡ false → support x entries ≡ 0
  unbacked x [] h = refl
  unbacked x ((k, d) ∷ entries) h = ground (arith, h, unbacked x entries)

  -- The power that an entry has, 0 where there is none.
  abbrev pub amount : Option ℕ → ℕ
  amount none = 0
  amount (some n) = n

  -- Where the powers do not add up to 2 ^ 64, a cork's entry has their sum.
  pub vote_of-counted :
      (x : Cork) (entries : List Entry) (votes : Votes)
      → amount (vote_of x votes) + support x entries < 2 ^ 64
      → vote_of x (counted entries votes) ≡ (
          if is_backed x entries
          then some (amount (vote_of x votes) + support x entries)
          else vote_of x votes)
  unfolding counted
  vote_of-counted x [] votes h = refl
  vote_of-counted x ((k, d) ∷ entries) votes h =
      let votes' = add_vote b d (power_of k) votes in
      elim (Option-cases (vote_of x votes)) [
        | inl e ↦ ground (
          arith,
          h,
          e,
          vote_of-add_vote d x (power_of k) votes,
          vote_of-counted x entries votes',
          unbacked x entries,
        )
        | inr (n, e) ↦ ground (
          arith,
          h,
          e,
          vote_of-add_vote d x (power_of k) votes,
          vote_of-counted x entries votes',
          unbacked x entries,
        )
      ]
