-- ===== src/Incentives.antt =====
-- x/incentives: staking rewards from the community pool, x/incentives/keeper/abci.go, keeper.go and
-- genesis.go, and the parameters and the genesis of x/incentives/types.
pub mod Paying
mod Tests
use sommelier.Base.{
  ℕ, String, Bool, true, false, not, ◌&&◌, ◌||◌, Option, none, some, List, leb, ◌==◌, string_eq,
}
use sommelier.Base.Int.{ℤ, pos, is_zero, ◌*ℤ◌}
use sommelier.Base.Word.{int64}
use sommelier.Base.Exec.{
  Exec, ok, err, panic, ◌>>=◌, ◌>>◌, gets, or_panic, raise_if, when, modify, abort,
}
use sommelier.Sdk.{Sdk, Coin, zero_dec}
use sommelier.Auction.Types.{base_coin_unit}

pub record Params : Type 0 where
  pub distribution_per_block : Coin
  pub incentives_cutoff_height : ℕ

pub record GenesisState : Type 0 where
  pub params : Params

pub data Error : Type 0 where
  invalid_distribution_per_block : Error

-- What the module takes from the modules of distribution, auth and mint.
pub record Rewards (Decimal : Type 0) : Type 1 where
  -- `sdk.DecCoins`, `NewDecCoinsFromCoins` and `SafeSub`, which tells if a difference is negative
  pub DecCoins : Type 0
  pub dec_coins : List Coin → DecCoins
  pub safe_sub : DecCoins → DecCoins → DecCoins × Bool
  -- the names of the two modules
  pub distribution_name : String
  pub fee_collector_name : String
  -- the mint keeper's numbers
  pub blocks_per_year : ℕ
  pub bonded_ratio : Decimal
  pub staking_token_supply : ℤ

abbrev pub default_params : Params
default_params = record {
  distribution_per_block = record { denom = base_coin_unit; amount = pos 0 };
  incentives_cutoff_height = 0;
}

abbrev pub default_genesis : GenesisState
default_genesis = record { params = default_params }

module _ ⦃sdk : Sdk⦄ (r : Rewards sdk.Decimal) where
  pub record Incentives : Type 0 where
    pub params : Params
    pub community_pool : r.DecCoins
    pub bank : sdk.Bank

  abbrev pub Action : Type 0 → Type 0
  Action A = Exec Incentives Error A

  -- `Params.ValidateBasic`; a coin that is nil is not valid
  abbrev pub validate_params : Params → Bool
  validate_params p =
      sdk.is_valid p.distribution_per_block && p.distribution_per_block.denom == base_coin_unit

  -- `GenesisState.Validate`
  abbrev pub validate_genesis : GenesisState → Bool
  validate_genesis gs = validate_params gs.params

  -- `SetParams`, of a subspace that panics if a parameter does not validate
  abbrev pub set_params : Params → Action Unit
  set_params p = when (not (validate_params p)) abort >> modify (λ s. record s { params = p })

  abbrev pub init_genesis : GenesisState → Action Unit
  init_genesis gs = set_params gs.params

  abbrev pub export_genesis : Incentives → GenesisState
  export_genesis s = record { params = s.params }

  -- Whether a block comes at or after the cutoff, or there is nothing to distribute.
  abbrev pub is_off : ℕ → Params → Bool
  is_off height p = leb p.incentives_cutoff_height height || is_zero p.distribution_per_block.amount

  -- The transfer to the fee collector, whose error is a panic.
  unfoldable pub send_rewards : List Coin → Action Unit
  send_rewards coins s =
      let (sent, bank) =
        sdk.send_module_to_module r.distribution_name r.fee_collector_name coins s.bank in
      elim sent [
        | ok _ ↦ (ok tt, record s { bank = bank })
        | err _ ↦ (panic, record s { bank = bank })
        | panic ↦ (panic, record s { bank = bank })
      ]

  -- The rest of `EndBlocker` once the coins are known.
  unfoldable pub distribute : List Coin → Action Unit
  unfolding send_rewards
  distribute coins = do
    pool ← gets (λ s. s.community_pool)
    when (not ((r.safe_sub pool (r.dec_coins coins)).1)) (
        send_rewards coins
        >> modify (λ s. record s { community_pool = (r.safe_sub pool (r.dec_coins coins)).0 }))

  unfoldable pub end_blocker : ℕ → Action Unit
  unfolding distribute
  end_blocker height = do
    p ← gets (λ s. s.params)
    when (not (is_off height p)) (or_panic (sdk.new_coins p.distribution_per_block) >>= distribute)

  -- `GetAPY`; a quotient that panics is `none`
  unfoldable pub get_apy : ℕ → Incentives → Option sdk.Decimal
  unfolding int64 ◌*ℤ◌
  get_apy height s =
      let rewards = s.params.distribution_per_block.amount *ℤ int64 r.blocks_per_year in
      elim (is_off height s.params) [
        | true ↦ some zero_dec
        | false ↦ elim (sdk.quo (sdk.dec_int rewards) (sdk.dec_int r.staking_token_supply)) [
          | none ↦ none
          | some share ↦ sdk.quo share r.bonded_ratio
        ]
      ]
