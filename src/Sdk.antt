-- ===== src/Sdk.antt =====
-- What the modules take from the Cosmos SDK: decimals, coins, addresses and the bank keeper. None
-- of it is code of the repository, so its operations are the fields of an interface, and what the
-- proofs rely on is stated where it is used. `math.Int` wraps the standard library's `big.Int`.
pub mod Scaled
use Prim.Native.Nat.{Ordering}
use sommelier.Base.{ℕ, String, Bool, true, false, Option, List}
use sommelier.Base.Int.{ℤ, pos}
use sommelier.Base.Exec.{Outcome}

-- `sdk.Coin`, by its two public fields.
pub record Coin : Type 0 where
  pub denom : String
  pub amount : ℤ

-- Where an operation is documented to panic, it is absent or the outcome is `panic`.
pub record Sdk : Type 1 where
  -- `sdk.Decimal`
  pub Decimal : Type 0
  -- `NewDecFromInt`, and `MustNewDecFromStr` at a literal that it accepts
  pub dec_int : ℤ → Decimal
  pub dec_str : String → Decimal
  pub add : Decimal → Decimal → Decimal
  pub sub : Decimal → Decimal → Decimal
  pub mul : Decimal → Decimal → Decimal
  pub quo : Decimal → Decimal → Option Decimal
  pub power : Decimal → ℕ → Decimal
  pub ceil : Decimal → Decimal
  pub truncate_int : Decimal → ℤ
  pub truncate_int64 : Decimal → Option ℤ
  -- the order that `LT`, `LTE`, `GT`, `GTE`, `Equal`, `IsPositive` and `IsZero` read
  pub cmp : Decimal → Decimal → Ordering
  -- `Coin.IsValid`, `NewCoin`, `NewCoins` of one coin, `Coin.Sub`
  pub is_valid : Coin → Bool
  pub new_coin : String → ℤ → Option Coin
  pub new_coins : Coin → Option (List Coin)
  pub sub_coin : Coin → Coin → Option Coin
  -- `AccAddressFromBech32` and the text of the address that it returns
  pub acc_address : String → Option String
  -- whether `govtypesv1beta1.ValidateAbstract` accepts a title and a description
  pub validate_abstract : String → String → Bool
  -- `gravitytypes.GravityDenomPrefix`, of the gravity bridge
  pub gravity_denom_prefix : String
  -- the bank keeper's state; an account is named by its address, a module account by its module
  pub Bank : Type 0
  pub Reason : Type 0
  pub module_balance : Bank → String → String → Coin
  pub send_module_to_module : String → String → List Coin → Bank → Outcome Reason (Unit {0}) × Bank
  pub send_account_to_module : String → String → List Coin → Bank → Outcome Reason (Unit {0}) × Bank
  pub send_module_to_account : String → String → List Coin → Bank → Outcome Reason (Unit {0}) × Bank

-- `a.LT(b)` and `a.LTE(b)`; `GT` and `GTE` exchange the arguments.
abbrev pub lt : ⦃sdk : Sdk⦄ → sdk.Decimal → sdk.Decimal → Bool
lt ⦃sdk⦄ a b = elim (sdk.cmp a b) [ Ordering.lt ↦ true | _ ↦ false ]

abbrev pub lte : ⦃sdk : Sdk⦄ → sdk.Decimal → sdk.Decimal → Bool
lte ⦃sdk⦄ a b = elim (sdk.cmp a b) [ Ordering.gt ↦ false | _ ↦ true ]

abbrev pub zero_dec : ⦃sdk : Sdk⦄ → sdk.Decimal
zero_dec ⦃sdk⦄ = sdk.dec_int (pos 0)

abbrev pub one_dec : ⦃sdk : Sdk⦄ → sdk.Decimal
one_dec ⦃sdk⦄ = sdk.dec_int (pos 1)

-- `d.IsPositive()`
abbrev pub is_positive_dec : ⦃sdk : Sdk⦄ → sdk.Decimal → Bool
is_positive_dec d = lt zero_dec d
