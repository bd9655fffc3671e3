-- ===== src/CellarFees/Reading.antt =====
-- The answers of x/cellarfees/keeper/query_server.go. A query reads what a method answers and drops what
-- the method writes.
use sommelier.Base.{ℕ, String, Option}
use sommelier.Base.Exec.{ok, err, panic, foreign, wrapped, ◌>>=◌, gets, or_raise, or_panic}
use sommelier.Sdk.{Sdk}
use sommelier.Queries.{Query, answer, invalid_argument}
use sommelier.CellarFees.Types.{Params, Counters, Action, FeesWorld}
use sommelier.CellarFees.Emission.{get_last_reward_supply_peak}
use sommelier.CellarFees.Genesis.{Minting, get_apy}

module _ ⦃sdk : Sdk⦄ where
  -- A method as a query; the methods here raise no error.
  abbrev pub read : {A : Type 0} → Action A → Query (FeesWorld sdk) A
  read m w = elim (m w).0 [ ok a ↦ (ok a, w) | err _ ↦ (err foreign, w) | panic ↦ (panic, w) ]

  abbrev pub query_params : Option (Unit {0}) → Query (FeesWorld sdk) (Params sdk.Decimal)
  query_params request = answer request (λ w. w.fees.params)

  -- `fees_address` is the address of the module's account.
  abbrev pub query_module_accounts : String → Option (Unit {0}) → Query (FeesWorld sdk) String
  query_module_accounts fees_address request = answer request (λ _. fees_address)

  unfoldable pub query_last_reward_supply_peak : Option (Unit {0}) → Query (FeesWorld sdk) ℕ
  query_last_reward_supply_peak request = do
    _ ← or_raise request (wrapped invalid_argument)
    read get_last_reward_supply_peak

  unfoldable pub query_fee_accrual_counters : Option (Unit {0}) → Query (FeesWorld sdk) Counters
  query_fee_accrual_counters request = do
    _ ← or_raise request (wrapped invalid_argument)
    stored ← gets (λ w. w.fees.fee_accrual_counters)
    or_panic stored

  -- The decimal's text is left out.
  abbrev pub query_apy : Minting sdk.Decimal → Query (FeesWorld sdk) sdk.Decimal
  query_apy mint = read (get_apy mint)
