-- ===== src/Cork/Tally/Powers.antt =====
-- The powers that a tally adds up.
use sommelier.Base.{ℕ, ◌+◌, ◌%◌, ◌^◌, ◌≡◌, [], ◌∷◌, arith}
use sommelier.Sdk.{Sdk}
use sommelier.Cork.Types.{Bridge, Cork}
use sommelier.Cork.Tally.{Votes, add_vote}

abbrev pub total : Votes → ℕ
total [] = 0
total ((c, n) ∷ votes) = n + total votes

module _ ⦃sdk : Sdk⦄ (b : Bridge sdk.Decimal) where
  -- A vote adds its power to the total of all corks, modulo 2 ^ 64.
  pub total-add_vote :
      (c : Cork) (power : ℕ) (votes : Votes)
      → total (add_vote b c power votes) % 2 ^ 64 ≡ (total votes + power) % 2 ^ 64
  unfolding add_vote
  total-add_vote c power [] = omega arith
  total-add_vote c power ((d, n) ∷ votes) = ground (arith, total-add_vote c power votes)
