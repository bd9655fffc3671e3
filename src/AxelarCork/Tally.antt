-- ===== src/AxelarCork/Tally.antt =====
-- `GetApprovedScheduledAxelarCorks` of x/axelarcork/keeper/keeper.go, and `EndBlocker` of abci.go.
pub mod Winning
pub mod Expiry
use sommelier.Base.{
  ℕ, ◌+◌, ◌%◌, ◌^◌, String, Bool, ◌&&◌, Option, none, some, List, [], ◌∷◌, leb, ◌==◌, nat_eq,
  if◌then◌else◌,
}
use sommelier.Base.Int.{ℤ, pos}
use sommelier.Base.Word.{sub_u64}
use sommelier.Base.Exec.{Exec, ◌>>=◌, ◌>>◌, pure, gets, or_panic, modify, for_each}
use sommelier.Base.Table.{Table, values}
use sommelier.Base.Table.Pair.{number}
use sommelier.Sdk.{Sdk, lt}
use sommelier.AxelarCork.Types.{
  AxelarCork, AxelarCorkResult, ChainConfiguration, Error, Chains, State, equals, id_hash,
  delete_scheduled_axelar_cork, set_winning_axelar_cork, delete_winning_axelar_cork_by_blockheight,
  set_axelar_cork_result,
}

-- The two slices `corks` and `powers`, side by side.
abbrev pub AxelarVotes : Type 0
AxelarVotes = List (AxelarCork × ℕ)

abbrev pub ScheduledKey : Type 0 → Type 0
ScheduledKey Address = ℕ × (ℕ × (String × (String × Address)))

module _ {Address : Type 0} where
  -- The entries under the prefix of a chain and a height.
  unfoldable pub scheduled_for :
      ℕ → ℕ → List (ScheduledKey Address × AxelarCork) → List (ScheduledKey Address × AxelarCork)
  scheduled_for chain height [] = []
  scheduled_for chain height ((k, c) ∷ t) =
      let rest = scheduled_for chain height t in
      if k.0 == chain && k.1.0 == height then (k, c) ∷ rest else rest

  -- The winning entries under the prefix of a chain.
  unfoldable pub winning_for :
      ℕ → List ((ℕ × (ℕ × Address)) × AxelarCork) → List ((ℕ × (ℕ × Address)) × AxelarCork)
  winning_for chain [] = []
  winning_for chain ((k, c) ∷ t) =
      let rest = winning_for chain t in if k.0 == chain then (k, c) ∷ rest else rest

module _ ⦃sdk : Sdk⦄ (b : Chains sdk.Decimal) where
  abbrev pub Action : Type 0 → Type 0
  Action A = Exec (State b) Error A

  -- The inner loop: the power goes to the first cork that is equal, or to a new one.
  unfoldable pub add_axelar_vote : AxelarCork → ℕ → AxelarVotes → AxelarVotes
  add_axelar_vote c power [] = (c, power) ∷ []
  add_axelar_vote c power ((d, n) ∷ votes) =
      let rest = add_axelar_vote c power votes in
      if equals b d c then (d, (n + power) % 2 ^ 64) ∷ votes else (d, n) ∷ rest

  -- The loop over the scheduled corks of a chain and the height.
  unfoldable pub count_axelar_votes :
      List (ScheduledKey b.Address × AxelarCork) → AxelarVotes → Action AxelarVotes
  unfolding add_axelar_vote
  count_axelar_votes [] votes = pure votes
  count_axelar_votes ((k, c) ∷ entries) votes = or_panic (b.power k.1.1.1.0) >>= λ power.
      modify (delete_scheduled_axelar_cork b k)
      >> count_axelar_votes entries (add_axelar_vote c power votes)

  -- `sdk.MustNewDecFromStr(CorkVoteThresholdStr)`
  abbrev pub axelar_threshold : sdk.Decimal
  axelar_threshold = sdk.dec_str "0.67"

  abbrev pub axelar_result_of : ℕ → AxelarCork → sdk.Decimal → AxelarCorkResult
  axelar_result_of height c share = record {
    cork = c;
    block_height = height;
    approved = lt axelar_threshold share;
    approval_percentage = b.text (sdk.mul share (sdk.dec_int (pos 100)));
  }

  -- The loop over the counted corks.
  unfoldable pub judge_axelar : ℕ → ℕ → AxelarVotes → Action (List AxelarCork)
  judge_axelar chain height [] = pure []
  judge_axelar chain height ((c, power) ∷ votes) =
      or_panic (sdk.quo (sdk.dec_int (pos power)) (sdk.dec_int b.total_power)) >>= λ share.
      modify (set_axelar_cork_result b chain (id_hash b height c) (axelar_result_of height c share))
      >> (judge_axelar chain height votes >>= λ approved.
          pure (if lt axelar_threshold share then c ∷ approved else approved))

  unfoldable pub get_approved_scheduled_axelar_corks : ℕ → ℕ → Action (List AxelarCork)
  unfolding scheduled_for count_axelar_votes judge_axelar
  get_approved_scheduled_axelar_corks height chain = do
    entries ← gets (λ s. scheduled_for chain height s.scheduled)
    votes ← count_axelar_votes entries []
    judge_axelar chain height votes

  -- The loop that stores the winning corks.
  unfoldable pub store_winning : ℕ → ℕ → List AxelarCork → State b → State b
  store_winning chain height [] s = s
  store_winning chain height (c ∷ corks) s =
      store_winning chain height corks (set_winning_axelar_cork b chain height c s)

  -- The loop that removes winning corks, by the height that the code computes.
  unfoldable pub expire_winning :
      ℕ → ℕ → List ((ℕ × (ℕ × b.Address)) × AxelarCork) → State b → State b
  expire_winning chain timeout [] s = s
  expire_winning chain timeout ((k, c) ∷ entries) s =
      expire_winning chain timeout entries (
        if leb timeout k.1.0
        then delete_winning_axelar_cork_by_blockheight b chain k.1.0 c s
        else s)

  -- What `EndBlocker` does for a chain.
  unfoldable pub end_chain : ℕ → ChainConfiguration → Action (Unit {0})
  unfolding get_approved_scheduled_axelar_corks store_winning expire_winning winning_for sub_u64
  end_chain height g = do
    winners ← get_approved_scheduled_axelar_corks height g.id
    modify (store_winning g.id height winners)
    modify (λ s.
        expire_winning g.id (sub_u64 height s.params.cork_timeout_blocks)
          (winning_for g.id s.winning) s)

  unfoldable pub end_blocker : ℕ → Action (Unit {0})
  unfolding end_chain for_each
  end_blocker height = do
    configurations ← gets (λ s. values ⦃key = number⦄ s.configurations)
    for_each (end_chain height) configurations
