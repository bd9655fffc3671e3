-- ===== src/Cork/Validate.antt =====
-- The stateless checks of x/cork/types: params.go, cork.go, proposal.go and genesis.go, with the
-- genesis state, and `HandleScheduledCorkProposal` of x/cork/keeper/proposal_handler.go.
use sommelier.Base.{
  ℕ, String, Bool, not, ◌||◌, Option, some, List, [], ◌∷◌, ◌==◌, nat_eq, string_eq,
}
use sommelier.Base.Exec.{wrapped, foreign, ◌>>=◌, gets, raise_if}
use sommelier.Base.Check.{Checked, refuse_with, then_check, check_all}
use sommelier.Base.Table.Prefix.{is_some}
use sommelier.Sdk.{Sdk, lt, zero_dec, one_dec}
use sommelier.Cork.Types.{Bridge, Cork, CorkResult, Error, has_cellar_id}
use sommelier.Cork.Tally.{Action}
use sommelier.Cork.Scheduling.{validate_cork}

-- A decimal of the parameters is never nil here, and the check for that is left out.
pub record Params (Decimal : Type 0) : Type 0 where
  pub vote_threshold : Decimal
  pub max_corks_per_validator : ℕ

pub record ScheduledCork : Type 0 where
  pub cork : Cork
  pub block_height : ℕ
  pub validator : String
  pub id : String

pub record GenesisState (Decimal : Type 0) : Type 0 where
  pub params : Params Decimal
  pub cellar_ids : List String
  pub invalidation_nonce : ℕ
  pub scheduled_corks : List ScheduledCork
  pub cork_results : List CorkResult

-- What the SDK, the JSON package and the other modules compute of texts.
pub record Readers : Type 0 where
  -- `ValAddress.String`, and `ValAddressFromBech32` and `ValAddressFromHex`
  pub val_text : String → String
  pub val_from_bech32 : String → Option String
  pub val_from_hex : String → Option String
  -- `len` of the bytes of an id, and `hex.DecodeString`
  pub byte_length : String → ℕ
  pub decode_hex : String → Option String
  -- whether `sdk.NewDecFromStr` and `json.Valid` accept a text
  pub is_dec : String → Bool
  pub is_json : String → Bool
  -- whether `ValidateDomain` of x/pubsub/types accepts a domain
  pub is_domain : String → Bool

pub record ScheduledCorkProposal : Type 0 where
  pub title : String
  pub description : String
  pub block_height : ℕ
  pub target_contract_address : String
  pub contract_call_proto_json : String

module _ ⦃sdk : Sdk⦄ where
  unfoldable pub default_params : Params sdk.Decimal
  default_params = record { vote_threshold = sdk.dec_str "0.67"; max_corks_per_validator = 1000 }

  unfoldable pub validate_vote_threshold : sdk.Decimal → Checked Error
  validate_vote_threshold t = refuse_with ((lt t zero_dec || lt one_dec t, foreign) ∷ [])

  unfoldable pub validate_max_corks_per_validator : ℕ → Checked Error
  validate_max_corks_per_validator n = refuse_with ((n == 0, foreign) ∷ [])

  -- `Params.ValidateBasic`, which checks what the subspace does
  unfoldable pub validate_params : Params sdk.Decimal → Checked Error
  unfolding validate_vote_threshold validate_max_corks_per_validator
  validate_params p =
      then_check (validate_vote_threshold p.vote_threshold)
        (validate_max_corks_per_validator p.max_corks_per_validator)

  unfoldable pub default_genesis : GenesisState sdk.Decimal
  unfolding default_params
  default_genesis = record {
    params = default_params;
    cellar_ids = [];
    invalidation_nonce = 0;
    scheduled_corks = [];
    cork_results = [];
  }

module _ ⦃sdk : Sdk⦄ (b : Bridge sdk.Decimal) (r : Readers) where
  -- `CellarIDSet.ValidateBasic`
  unfoldable pub validate_cellar_ids : List String → Checked Error
  validate_cellar_ids ids =
      check_all (λ i. refuse_with ((not (b.is_hex_address i), foreign) ∷ [])) ids

  unfoldable pub validate_scheduled_cork : ScheduledCork → Checked Error
  unfolding validate_cork
  validate_scheduled_cork s = then_check (validate_cork b s.cork) (
      refuse_with (
        (s.block_height == 0, foreign)
        ∷ (not (is_some (r.val_from_bech32 s.validator)), foreign)
        ∷ (not (r.byte_length s.id == 64), foreign)
        ∷ []))

  unfoldable pub validate_cork_result : CorkResult → Checked Error
  unfolding validate_cork
  validate_cork_result c = then_check (validate_cork b c.cork) (
      refuse_with
        ((c.block_height == 0, foreign) ∷ (not (r.is_dec c.approval_percentage), foreign) ∷ []))

  unfoldable pub validate_genesis : GenesisState sdk.Decimal → Checked Error
  unfolding validate_params validate_cellar_ids validate_scheduled_cork validate_cork_result
  validate_genesis gs = then_check (validate_params gs.params) (
      then_check (validate_cellar_ids gs.cellar_ids) (
        then_check (check_all validate_scheduled_cork gs.scheduled_corks)
          (check_all validate_cork_result gs.cork_results)))

  -- `AddManagedCellarIDsProposal.ValidateBasic`, of a title, a description, ids and a domain
  unfoldable pub validate_add_managed_cellars :
      String → String → List String → String → Checked Error
  validate_add_managed_cellars title description [] domain = some foreign
  validate_add_managed_cellars title description (i ∷ ids) domain = refuse_with (
      (not (sdk.validate_abstract title description), foreign)
      ∷ (not (r.is_domain domain), foreign)
      ∷ [])

  -- `RemoveManagedCellarIDsProposal.ValidateBasic`
  unfoldable pub validate_remove_managed_cellars : String → String → List String → Checked Error
  validate_remove_managed_cellars title description [] = some foreign
  validate_remove_managed_cellars title description (i ∷ ids) =
      refuse_with ((not (sdk.validate_abstract title description), foreign) ∷ [])

  -- `ScheduledCorkProposal.ValidateBasic`
  unfoldable pub validate_scheduled_cork_proposal : ScheduledCorkProposal → Checked Error
  validate_scheduled_cork_proposal p = refuse_with (
      (not (sdk.validate_abstract p.title p.description), foreign)
      ∷ (p.block_height == 0, foreign)
      ∷ (p.contract_call_proto_json == "", wrapped Error.invalid_json)
      ∷ (not (r.is_json p.contract_call_proto_json), wrapped Error.invalid_json)
      ∷ (not (b.is_hex_address p.target_contract_address), wrapped Error.invalid_ethereum_address)
      ∷ [])

  -- `HandleScheduledCorkProposal`, which only checks
  unfoldable pub handle_scheduled_cork : ScheduledCorkProposal → Action b (Unit {0})
  handle_scheduled_cork p = do
    managed ← gets (has_cellar_id b (b.hex_to_address p.target_contract_address))
    raise_if (not managed) (wrapped Error.unmanaged_cellar_address)
