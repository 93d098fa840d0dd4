-- ===== src/LocClient/Opening.antt =====
-- The opening of a LOC by its requester, in AuthenticatedLocClient of
-- packages/client/src/LocClient.ts.
pub mod Compensations
use logion_api.Common.{
  ℕ, zero, suc, ◌+◌, String, Bool, true, false, Option, none, some, List, [], ◌∷◌, map, Result, ok,
  throw, if◌then◌else◌,
}
use logion_api.Common
use logion_api.Hash.{Hash}
use logion_api.Currency.{Lgnt}
use logion_api.Fees.{Fees}
use logion_api.Fees.Estimator.{
  LocType, transaction, identity, collection, legal_fee_of, estimate_create_loc,
}
use logion_api.Calls.{
  Uuid, Piece, lit, uuid, flag, post, delete, Run, reading, ◌>>=◌, ◌>>◌, backend, sign, try_catch,
  try_catch_unawaited,
}
use logion_api.LocClient.{
  ValidAccountId, FileParams, MetadataItemParams, LinkParams, ItemsParams, CollectionParams,
  Submittable, create_polkadot_transaction_loc, create_polkadot_identity_loc, create_collection_loc,
  AuthenticatedLocClient,
}
use logion_api.LocClient.Items.{me, ensure_own_funds}

-- interface AddMetadataParams
pub record AddMetadataParams : Type 0 where
  pub name : String
  pub value : String

-- interface AddFileParams, with the hash and the size of its file
pub record AddFileParams : Type 0 where
  pub content_hash : Hash
  pub size : ℕ
  pub nature : String

-- interface AddLinkParams
pub record AddLinkParams : Type 0 where
  pub target : Uuid
  pub nature : String

-- interface OpenPolkadotLocParams, with AutoPublish
pub record OpenPolkadotLocParams : Type 0 where
  pub loc_id : Uuid
  pub legal_officer_address : String
  pub legal_fee : Option Lgnt
  pub metadata : List AddMetadataParams
  pub files : List AddFileParams
  pub links : List AddLinkParams
  pub auto_publish : Bool

unfoldable pub total_size : List AddFileParams → ℕ
total_size [] = 0
total_size (file ∷ files) = file.size + total_size files

unfoldable pub storage_size : Bool → List AddFileParams → Option ℕ
storage_size auto_publish [] = none
storage_size auto_publish (file ∷ files) =
    if auto_publish then some (total_size (file ∷ files)) else none

-- `value || null`, for a number
unfoldable pub or_null : Option ℕ → Option ℕ
or_null none = none
or_null (some zero) = none
or_null (some (suc n)) = some (suc n)

abbrev pub open_path : Uuid → List Piece
open_path loc_id = lit "/api/loc-request/" ∷ uuid loc_id ∷ lit "/open" ∷ []

module _ {W : Type 0} (client : AuthenticatedLocClient W) where
  unfoldable pub to_metadata_item_params : AddMetadataParams → MetadataItemParams
  to_metadata_item_params item = record {
    name = client.hashing item.name;
    value = client.hashing item.value;
    submitter = client.current_address;
  }

  unfoldable pub to_file_params : AddFileParams → FileParams
  to_file_params item = record {
    hash = item.content_hash;
    nature = client.hashing item.nature;
    size = item.size;
    submitter = client.current_address;
  }

  unfoldable pub to_link_params : AddLinkParams → LinkParams
  to_link_params item = record {
    id = item.target;
    nature = client.hashing item.nature;
    submitter = client.current_address;
  }

  unfoldable pub items_of : OpenPolkadotLocParams → ItemsParams
  items_of parameters = record {
    metadata = map to_metadata_item_params parameters.metadata;
    files = map to_file_params parameters.files;
    links = map to_link_params parameters.links;
  }

  unfoldable pub open_transaction_loc_submittable : OpenPolkadotLocParams → Result Submittable
  open_transaction_loc_submittable parameters =
      Common.◌>>=◌ (legal_fee_of parameters.legal_fee transaction) (λ legal_fee. ok (
        create_polkadot_transaction_loc parameters.loc_id parameters.legal_officer_address legal_fee
          (items_of parameters)))

  unfoldable pub open_identity_loc_submittable : OpenPolkadotLocParams → Result Submittable
  open_identity_loc_submittable parameters =
      Common.◌>>=◌ (legal_fee_of parameters.legal_fee identity) (λ legal_fee. ok (
        create_polkadot_identity_loc parameters.loc_id parameters.legal_officer_address legal_fee
          (items_of parameters)))

  unfoldable pub open_collection_loc_submittable :
      OpenPolkadotLocParams → CollectionParams → Result Submittable
  open_collection_loc_submittable parameters limits =
      Common.◌>>=◌ (legal_fee_of parameters.legal_fee collection) (λ legal_fee. ok (
        create_collection_loc parameters.loc_id parameters.legal_officer_address
          (record limits {
            last_block_submission = or_null limits.last_block_submission;
            max_size = or_null limits.max_size;
          })
          legal_fee (items_of parameters)))

  estimate_creation :
      LocType → Option Lgnt → Result Submittable → OpenPolkadotLocParams → W → Result Fees
  estimate_creation loc_type value_fee tx parameters w = Common.◌>>=◌ tx (λ submittable.
      estimate_create_loc (client.api w) (me client) submittable (record {
        loc_type = loc_type;
        value_fee = value_fee;
        legal_fee = parameters.legal_fee;
        storage_size = storage_size parameters.auto_publish parameters.files;
      }))

  unfoldable pub estimate_fees_open_transaction_loc : OpenPolkadotLocParams → W → Result Fees
  unfolding estimate_creation
  estimate_fees_open_transaction_loc parameters =
      estimate_creation transaction none (open_transaction_loc_submittable parameters) parameters

  unfoldable pub estimate_fees_open_identity_loc : OpenPolkadotLocParams → W → Result Fees
  unfolding estimate_creation
  estimate_fees_open_identity_loc parameters =
      estimate_creation identity none (open_identity_loc_submittable parameters) parameters

  unfoldable pub estimate_fees_open_collection_loc :
      OpenPolkadotLocParams → CollectionParams → W → Result Fees
  unfolding estimate_creation
  estimate_fees_open_collection_loc parameters limits =
      estimate_creation collection (some limits.value_fee)
        (open_collection_loc_submittable parameters limits) parameters

  -- `openLoc` of AuthenticatedLocClient
  unfoldable pub open_loc : Uuid → Bool → Run Submittable W (Unit {0})
  open_loc loc_id auto_publish =
      backend client.outside post (open_path loc_id) (("autoPublish", flag auto_publish) ∷ [])

  unfoldable pub cancel_open_loc : Uuid → Run Submittable W (Unit {0})
  cancel_open_loc loc_id = backend client.outside delete (open_path loc_id) []

  unfoldable pub pre_open : Bool → OpenPolkadotLocParams → Run Submittable W (Unit {0})
  pre_open require_pre_open parameters =
      if require_pre_open
      then open_loc parameters.loc_id parameters.auto_publish
      else reading (λ w. ok tt)

  unfoldable pub open_transaction_loc : OpenPolkadotLocParams → Bool → Run Submittable W (Unit {0})
  open_transaction_loc parameters require_pre_open = do
    fees ← reading (estimate_fees_open_transaction_loc parameters)
    reading (ensure_own_funds client fees)
    pre_open require_pre_open parameters
    try_catch_unawaited
        (reading (λ w. open_transaction_loc_submittable parameters)
          >>= sign client.outside (me client))
        (cancel_open_loc parameters.loc_id)

  unfoldable pub open_identity_loc : OpenPolkadotLocParams → Bool → Run Submittable W (Unit {0})
  open_identity_loc parameters require_pre_open = do
    fees ← reading (estimate_fees_open_identity_loc parameters)
    reading (ensure_own_funds client fees)
    pre_open require_pre_open parameters
    try_catch
        (reading (λ w. open_identity_loc_submittable parameters)
          >>= sign client.outside (me client))
        (cancel_open_loc parameters.loc_id)

  unfoldable pub open_collection_loc :
      OpenPolkadotLocParams → CollectionParams → Bool → Run Submittable W (Unit {0})
  open_collection_loc parameters limits require_pre_open = do
    fees ← reading (estimate_fees_open_collection_loc parameters limits)
    reading (ensure_own_funds client fees)
    pre_open require_pre_open parameters
    try_catch
        (reading (λ w. open_collection_loc_submittable parameters limits)
          >>= sign client.outside (me client))
        (cancel_open_loc parameters.loc_id)
