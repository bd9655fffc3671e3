-- ===== src/Cork/Tally.antt =====
-- `GetApprovedScheduledCorks` of x/cork/keeper/keeper.go and `EndBlocker` of x/cork/keeper/abci.go.
pub mod Clearing
pub mod Powers
pub mod Counting
pub mod Approval
use sommelier.Base.{
  ℕ, ◌+◌, ◌%◌, ◌^◌, String, Bool, Option, none, some, List, [], ◌∷◌, ◌++◌, ◌==◌, nat_eq,
  if◌then◌else◌,
}
use sommelier.Base.Int.{ℤ, pos}
use sommelier.Base.Exec.{Exec, ◌>>=◌, ◌>>◌, pure, gets, or_panic, modify}
use sommelier.Base.Table.{Table}
use sommelier.Sdk.{Sdk, lt}
use sommelier.Cork.Types.{
  ScheduledKey, Bridge, Cork, CorkResult, Corks, Error, equals, id_hash, delete_scheduled_cork,
  decrement_validator_cork_count, set_cork_result, increment_invalidation_nonce,
}

-- The two slices `corks` and `powers`, side by side.
abbrev pub Votes : Type 0
Votes = List (Cork × ℕ)

module _ {Address : Type 0} where
  -- The entries under the prefix of a height.
  unfoldable pub scheduled_at :
      ℕ → List (ScheduledKey Address × Cork) → List (ScheduledKey Address × Cork)
  scheduled_at height [] = []
  scheduled_at height ((k, c) ∷ t) =
      let rest = scheduled_at height t in if k.0 == height then (k, c) ∷ rest else rest

module _ ⦃sdk : Sdk⦄ (b : Bridge sdk.Decimal) where
  abbrev pub Action : Type 0 → Type 0
  Action A = Exec (Corks b.Address) Error A

  -- The inner loop: the power goes to the first cork that is equal, or to a new one.
  unfoldable pub add_vote : Cork → ℕ → Votes → Votes
  add_vote c power [] = (c, power) ∷ []
  add_vote c power ((d, n) ∷ votes) =
      let rest = add_vote c power votes in
      if equals b d c then (d, (n + power) % 2 ^ 64) ∷ votes else (d, n) ∷ rest

  -- The entry of a vote that has been counted.
  abbrev pub clear_vote : ScheduledKey b.Address → Corks b.Address → Corks b.Address
  clear_vote k s = decrement_validator_cork_count k.1.1.0 (delete_scheduled_cork b k s)

  -- The loop over the scheduled corks of the height.
  unfoldable pub count_votes : List (ScheduledKey b.Address × Cork) → Votes → Action Votes
  unfolding add_vote
  count_votes [] votes = pure votes
  count_votes ((k, c) ∷ entries) votes = or_panic (b.power k.1.1.0) >>= λ power.
      modify (clear_vote k) >> count_votes entries (add_vote c power votes)

  -- `sdk.MustNewDecFromStr(corkVoteThresholdStr)`
  abbrev pub threshold : sdk.Decimal
  threshold = sdk.dec_str "0.67"

  abbrev pub result_of : ℕ → Cork → sdk.Decimal → CorkResult
  result_of height c share = record {
    cork = c;
    block_height = height;
    approved = lt threshold share;
    approval_percentage = b.text (sdk.mul share (sdk.dec_int (pos 100)));
  }

  -- The loop over the counted corks.
  unfoldable pub judge : ℕ → Votes → Action (List Cork)
  judge height [] = pure []
  judge height ((c, power) ∷ votes) =
      or_panic (sdk.quo (sdk.dec_int (pos power)) (sdk.dec_int b.total_power)) >>= λ share.
      modify (set_cork_result (id_hash b height c) (result_of height c share))
      >> (judge height votes >>= λ approved.
          pure (if lt threshold share then c ∷ approved else approved))

  unfoldable pub get_approved_scheduled_corks : ℕ → Action (List Cork)
  unfolding scheduled_at count_votes judge
  get_approved_scheduled_corks height = do
    entries ← gets (λ s. scheduled_at height s.scheduled)
    votes ← count_votes entries []
    judge height votes

  -- `submitContractCall`, but for the bridge's call
  unfoldable pub submit_contract_calls : List Cork → Action (Unit {0})
  submit_contract_calls [] = pure tt
  submit_contract_calls (c ∷ corks) =
      modify increment_invalidation_nonce >> submit_contract_calls corks

  unfoldable pub end_blocker : ℕ → Action (Unit {0})
  unfolding get_approved_scheduled_corks submit_contract_calls
  end_blocker height = do
    winning ← get_approved_scheduled_corks height
    submit_contract_calls winning
