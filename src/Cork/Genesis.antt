-- ===== src/Cork/Genesis.antt =====
-- x/cork/keeper/genesis.go and the parameters' accessors of keeper.go.
pub mod Roundtrip
use sommelier.Base.{ℕ, String, none, List, [], ◌∷◌, map}
use sommelier.Base.Exec.{Exec, ◌>>=◌, ◌>>◌, gets, or_panic, modify, when, abort, for_each}
use sommelier.Base.Table.Prefix.{is_some}
use sommelier.Sdk.{Sdk}
use sommelier.Cork.Types.{
  Bridge, CorkResult, Corks, Error, id_hash, get_cellar_ids, set_cellar_ids, set_cork_result,
  set_scheduled_cork,
}
use sommelier.Cork.Validate.{Params, ScheduledCork, GenesisState, Readers, validate_params}
use sommelier.Cork.Reading.{get_scheduled_corks, get_cork_results}

-- The store beside the parameters' subspace.
pub record CorkModule (Address Decimal : Type 0) : Type 0 where
  pub params : Params Decimal
  pub corks : Corks Address

module _ {Address : Type 0} where
  -- `SetLatestInvalidationNonce`
  abbrev pub set_latest_invalidation_nonce : ℕ → Corks Address → Corks Address
  set_latest_invalidation_nonce n s = record s { invalidation_nonce = n }

module _ ⦃sdk : Sdk⦄ (b : Bridge sdk.Decimal) (r : Readers) where
  abbrev pub Module : Type 0
  Module = CorkModule b.Address sdk.Decimal

  abbrev pub Loads : Type 0 → Type 0
  Loads A = Exec Module Error A

  abbrev pub update_corks : (Corks b.Address → Corks b.Address) → Loads (Unit {0})
  update_corks f = modify λ s. record s { corks = f s.corks }

  -- `SetParams`, of a subspace that panics at a value that does not validate
  unfoldable pub set_params : Params sdk.Decimal → Loads (Unit {0})
  unfolding validate_params
  set_params p = do when (is_some (validate_params p)) abort; modify (λ s. record s { params = p })

  abbrev pub load_result : CorkResult → Corks b.Address → Corks b.Address
  load_result c = set_cork_result (id_hash b c.block_height c.cork) c

  -- The loop over the results.
  unfoldable pub load_results : List CorkResult → Corks b.Address → Corks b.Address
  load_results [] s = s
  load_results (c ∷ cs) s = load_results cs (load_result c s)

  -- The validator of a scheduled cork is read as a hexadecimal text.
  unfoldable pub load_scheduled : ScheduledCork → Loads (Unit {0})
  load_scheduled c = do
    val ← or_panic (r.val_from_hex c.validator)
    update_corks (set_scheduled_cork b c.block_height val c.cork)

  unfoldable pub init_genesis : GenesisState sdk.Decimal → Loads (Unit {0})
  unfolding set_params load_results load_scheduled for_each
  init_genesis gs = do
    set_params gs.params
    update_corks (set_cellar_ids gs.cellar_ids)
    update_corks (set_latest_invalidation_nonce gs.invalidation_nonce)
    update_corks (load_results gs.cork_results)
    for_each load_scheduled gs.scheduled_corks

  unfoldable pub export_genesis : Module → GenesisState sdk.Decimal
  export_genesis s = record {
    params = s.params;
    cellar_ids = map b.address_text (get_cellar_ids b s.corks);
    invalidation_nonce = s.corks.invalidation_nonce;
    scheduled_corks = get_scheduled_corks b r s.corks;
    cork_results = get_cork_results s.corks;
  }
