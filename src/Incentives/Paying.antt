-- ===== src/Incentives/Paying.antt =====
-- What the EndBlocker of x/incentives pays.
use sommelier.Base.{ℕ, ◌<◌, ◌≡◌, ◌≢◌, ◌⊎◌, Bool, false, none, some, List}
use sommelier.Base.Int.{is_zero}
use sommelier.Base.Exec.{ok}
use sommelier.Sdk.{Sdk, Coin}
use sommelier.Incentives.{Rewards, Incentives}

module _ ⦃sdk : Sdk⦄ (r : Rewards sdk.Decimal) where
  -- The coins go from the pool to the fee collector, by the bank and in the pool's account.
  abbrev pub Pays : ℕ → Incentives r → Incentives r → Type 0
  Pays height s t =
      (coins : List Coin) × (height < s.params.incentives_cutoff_height)
      × (is_zero s.params.distribution_per_block.amount ≡ false)
      × (sdk.new_coins s.params.distribution_per_block ≡ some coins)
      × ((r.safe_sub s.community_pool (r.dec_coins coins)).1 ≡ false)
      × ((sdk.send_module_to_module r.distribution_name r.fee_collector_name coins s.bank).0
          ≡ ok tt)
      × (t ≡ record s {
        bank = (sdk.send_module_to_module r.distribution_name r.fee_collector_name coins s.bank).1;
        community_pool = (r.safe_sub s.community_pool (r.dec_coins coins)).0;
      })

  -- Whether the pool has too little for a block's coins.
  abbrev pub is_short : Incentives r → Bool
  is_short s = elim (sdk.new_coins s.params.distribution_per_block) [
    | none ↦ false
    | some coins ↦ (r.safe_sub s.community_pool (r.dec_coins coins)).1
  ]

  -- Whether the coins of a block cannot be made, or the bank refuses to move them.
  abbrev pub Refused : Incentives r → Type 0
  Refused s =
      (sdk.new_coins s.params.distribution_per_block ≡ none)
      ⊎ ((coins : List Coin) × (sdk.new_coins s.params.distribution_per_block ≡ some coins)
          × ((sdk.send_module_to_module r.distribution_name r.fee_collector_name coins s.bank).0
              ≢ ok tt))
