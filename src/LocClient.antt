-- ===== src/LocClient.antt =====
-- AuthenticatedLocClient of packages/client/src/LocClient.ts: what its operations take and send.
-- The adapters of @logion/node-api only change the form of the arguments of a transaction.
pub mod Items
pub mod Opening
pub mod Lifecycle
pub mod Submissions
use logion_api.Common.{ℕ, String, Bool, Option, List}
use logion_api.Common.Int.{ℤ}
use logion_api.Hash.{Hash}
use logion_api.Currency.{Lgnt}
use logion_api.Calls.{Uuid, Outside}
use logion_api.Fees.Estimator.{Api}

pub data AccountType : Type 0 where
  polkadot ethereum bech32 : AccountType

-- class ValidAccountId of packages/node-api/src/Types.ts
pub record ValidAccountId : Type 0 where
  pub address : String
  pub type : AccountType

pub record FileParams : Type 0 where
  pub hash : Hash
  pub nature : Hash
  pub size : ℕ
  pub submitter : ValidAccountId

pub record MetadataItemParams : Type 0 where
  pub name : Hash
  pub value : Hash
  pub submitter : ValidAccountId

pub record LinkParams : Type 0 where
  pub id : Uuid
  pub nature : Hash
  pub submitter : ValidAccountId

-- what toPalletLogionLocItemsParams takes
pub record ItemsParams : Type 0 where
  pub metadata : List MetadataItemParams
  pub files : List FileParams
  pub links : List LinkParams

-- interface CollectionLimits, with the fees of a collection
pub record CollectionParams : Type 0 where
  pub last_block_submission : Option ℕ
  pub max_size : Option ℕ
  pub can_upload : Bool
  pub value_fee : Lgnt
  pub collection_item_fee : Lgnt
  pub tokens_record_fee : Lgnt

-- interface ItemFile
pub record ItemFile : Type 0 where
  pub name : Hash
  pub content_type : Hash
  pub hash : Hash
  pub size : ℕ

-- interface ItemToken
pub record ChainToken : Type 0 where
  pub id : Hash
  pub type : Hash
  pub issuance : ℤ

-- what toTermsAndConditionsElement takes
pub record ChainTerms : Type 0 where
  pub tc_type : Hash
  pub tc_loc_id : Uuid
  pub details : Hash

-- the arguments of addCollectionItem
pub record ItemTx : Type 0 where
  pub loc_id : Uuid
  pub item_id : Hash
  pub description : Hash
  pub files : List ItemFile
  pub token : Option ChainToken
  pub restricted_delivery : Bool
  pub terms : List ChainTerms

-- The transactions of the chain that the client makes.
pub data Submittable : Type 0 where
  add_file : Uuid → FileParams → Submittable
  add_metadata : Uuid → MetadataItemParams → Submittable
  add_link : Uuid → LinkParams → Submittable
  acknowledge_file : Uuid → Hash → Submittable
  acknowledge_metadata : Uuid → Hash → Submittable
  acknowledge_link : Uuid → Uuid → Submittable
  create_polkadot_transaction_loc : Uuid → String → Lgnt → ItemsParams → Submittable
  create_polkadot_identity_loc : Uuid → String → Lgnt → ItemsParams → Submittable
  create_collection_loc : Uuid → String → CollectionParams → Lgnt → ItemsParams → Submittable
  create_logion_transaction_loc : Uuid → Uuid → Submittable
  create_logion_identity_loc : Uuid → Submittable
  create_other_identity_loc : Uuid → ValidAccountId → Uuid → Lgnt → Submittable
  close : Uuid → Option String → Bool → Submittable
  make_void : Uuid → Submittable
  make_void_and_replace : Uuid → Uuid → Submittable
  add_collection_item : ItemTx → Submittable
  batch_items : List ItemTx → Submittable

-- The client: the others and their answers, the queries of the fees in each of their states, the
-- account that signs, and Hash.of.
pub record AuthenticatedLocClient (W : Type 0) : Type 0 where
  pub outside : Outside Submittable W
  pub api : W → Api Submittable String
  pub current_address : ValidAccountId
  pub hashing : String → Hash
