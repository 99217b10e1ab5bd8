-- ===== src/Accounting/Ingestion.antt =====
-- internal/accounting/model/ingestion.go: the binding of a portfolio to an account, and the evidence
-- with which a fill is ingested. The checksums are of canonical JSON, and are parameters.
use tradeedge.Prelude.{
  ◌==◌, if◌then◌else◌, Result, err, ok, reject_if, ◌>>=◌, ◌>>◌, Text, is_empty, trim_space,
  trim_space_idem, ℕ, ◌≡◌, Bool, true, false, not, ◌||◌, arith,
}
use tradeedge.Execution.Order.{Fill}

pub data IngestionError : Type 0 where
  invalid_ingestion invalid_identity : IngestionError

pub record AccountBinding : Type 0 where
  pub portfolio_id : ℕ
  pub account_id : Text
  pub version : Text
  pub valid_from : ℕ
  pub checksum : ℕ

pub record IngestionMetadata : Type 0 where
  pub id : ℕ
  pub source_sequence : ℕ
  pub source_checkpoint : Text
  pub source_checksum : ℕ
  pub binding : AccountBinding

pub record IngestionProgress : Type 0 where
  pub metadata : IngestionMetadata
  pub fill_id : ℕ
  pub fill_checksum : ℕ
  pub position_id : ℕ
  pub position_revision : ℕ
  pub application_id : ℕ
  pub checkpoint_checksum : ℕ
  pub checksum : ℕ

-- What SHA-256 derives; `NewIngestionID` fails on an empty part.
pub record IngestionDigests : Type 0 where
  pub binding_checksum : ℕ → Text → Text → ℕ → ℕ
  pub ingestion_id : ℕ → Text → ℕ → Result IngestionError ℕ
  pub progress_checksum : IngestionProgress → ℕ

-- `NewAccountBinding`
unfoldable pub new_account_binding :
    IngestionDigests → ℕ → Text → Text → ℕ → Result IngestionError AccountBinding
new_account_binding d portfolio_id account_id given valid_from =
    let version = trim_space given in
    if (portfolio_id == 0) || is_empty account_id || is_empty version || (valid_from == 0)
    then err invalid_ingestion
    else ok (record {
      portfolio_id = portfolio_id;
      account_id = account_id;
      version = version;
      valid_from = valid_from;
      checksum = d.binding_checksum portfolio_id account_id version valid_from;
    })

-- `AccountBinding.IsZero`
abbrev pub is_zero_binding : AccountBinding → Bool
is_zero_binding b = (b.portfolio_id == 0) || is_empty b.account_id || (b.checksum == 0)

-- `AccountBinding.Validate`
unfoldable pub is_valid_binding : IngestionDigests → AccountBinding → Bool
unfolding new_account_binding
is_valid_binding d b =
    elim (new_account_binding d b.portfolio_id b.account_id b.version b.valid_from) [
      | err _ ↦ false
      | ok rebuilt ↦ rebuilt.checksum == b.checksum
    ]

-- `NewIngestionMetadata`
unfoldable pub new_ingestion_metadata :
    IngestionDigests
    → Fill
    → ℕ
    → Text
    → ℕ
    → AccountBinding
    → Result IngestionError IngestionMetadata
unfolding is_valid_binding
new_ingestion_metadata d fill sequence given source_checksum binding =
    let checkpoint = trim_space given in
    do
      reject_if
          ((fill.id == 0)
            || (sequence == 0)
            || is_empty checkpoint
            || (source_checksum == 0)
            || not (is_valid_binding d binding))
          invalid_ingestion
      id ← d.ingestion_id fill.id checkpoint binding.checksum
      ok (record {
        id = id;
        source_sequence = sequence;
        source_checkpoint = checkpoint;
        source_checksum = source_checksum;
        binding = binding;
      })

-- `NewIngestionProgress`
unfoldable pub new_ingestion_progress :
    IngestionDigests → IngestionProgress → Result IngestionError IngestionProgress
new_ingestion_progress d value =
    if (value.metadata.id == 0)
      || (value.fill_id == 0)
      || (value.fill_checksum == 0)
      || (value.position_id == 0)
      || (value.position_revision == 0)
      || (value.application_id == 0)
      || (value.checkpoint_checksum == 0)
    then err invalid_ingestion
    else ok (record value { checksum = d.progress_checksum value })

-- A binding that `NewAccountBinding` returns is valid.
pub new_account_binding-validates :
    (d : IngestionDigests) (portfolio_id : ℕ) (account_id version : Text) (valid_from : ℕ)
    {b : AccountBinding}
    → new_account_binding d portfolio_id account_id version valid_from ≡ ok b
    → is_valid_binding d b ≡ true
unfolding new_account_binding is_valid_binding
new_account_binding-validates d portfolio_id account_id version valid_from h =
    ground (arith, trim_space_idem version)
