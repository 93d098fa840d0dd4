-- ===== src/Loc.antt =====
-- The LOCs of packages/client/src/Loc.ts: what a backend and the chain tell of a LOC, with the
-- interfaces of packages/client/src/LocClient.ts and packages/node-api/src/Types.ts. The identity
-- and the postal address of a requester, the state of an iDenfy session, the selected issuers and the payer of a storage
-- fee, which the code only passes on, are left out.
pub mod Merging
pub mod Data
pub mod Closing
pub mod OpenLoc
use logion_api.Common.{ℕ, String, Bool, Option, List}
use logion_api.Common.Int.{ℤ}
use logion_api.Numbers.Text.{Text}
use logion_api.Hash.{Hash}
use logion_api.Currency.{Lgnt}
use logion_api.Fees.{FeesView}
use logion_api.Fees.Estimator.{LocType}
use logion_api.License.Elements.{HashString}
use logion_api.Calls.{Uuid}
use logion_api.LocClient.{AccountType, ValidAccountId, FileParams, MetadataItemParams, LinkParams}

pub data ItemStatus : Type 0 where
  draft review_pending review_accepted review_rejected published acknowledged : ItemStatus

pub data LocRequestStatus : Type 0 where
  draft review_pending review_rejected review_accepted open_status closed_status : LocRequestStatus

pub record SupportedAccountId : Type 0 where
  pub type : AccountType
  pub address : String

-- interface ItemLifecycle of LocClient.ts: dates are ISO texts
pub record BackendItemLifecycle : Type 0 where
  pub added_on : Option String
  pub reviewed_on : Option String
  pub acknowledged_by_owner_on : Option String
  pub acknowledged_by_verified_issuer_on : Option String
  pub status : ItemStatus
  pub reject_reason : Option String

pub record LocFile : Type 0 where
  pub lifecycle : BackendItemLifecycle
  pub hash : Text
  pub nature : String
  pub submitter : SupportedAccountId
  pub name : String
  pub restricted_delivery : Bool
  pub content_type : String
  pub fees : Option FeesView
  pub size : Text

pub record LocMetadataItem : Type 0 where
  pub lifecycle : BackendItemLifecycle
  pub name : String
  pub name_hash : Text
  pub value : String
  pub submitter : SupportedAccountId
  pub fees : Option FeesView

pub record LocLink : Type 0 where
  pub lifecycle : BackendItemLifecycle
  pub target : String
  pub nature : String
  pub submitter : SupportedAccountId
  pub fees : Option FeesView

-- interface LocItemAck of packages/node-api/src/Types.ts
pub record LocItemAck : Type 0 where
  pub acknowledged_by_owner : Bool
  pub acknowledged_by_verified_issuer : Bool

-- interfaces File, MetadataItem and Link of packages/node-api/src/Types.ts
pub record ChainFile : Type 0 where
  pub params : FileParams
  pub ack : LocItemAck

pub record ChainMetadataItem : Type 0 where
  pub params : MetadataItemParams
  pub ack : LocItemAck

pub record ChainLink : Type 0 where
  pub params : LinkParams
  pub ack : LocItemAck

-- interface VoidInfo, as a merged LOC completes it with the reason and the date
pub record VoidInfo : Type 0 where
  pub replacer : Option Uuid
  pub reason : Option String
  pub voided_on : Option String

pub record LocRequestVoidInfo : Type 0 where
  pub reason : Option String
  pub voided_on : Option String

pub record VerifiedIssuer : Type 0 where
  pub first_name : String
  pub last_name : String
  pub identity_loc_id : Uuid
  pub address : String
  pub selected : Option Bool

pub record LocVerifiedIssuers : Type 0 where
  pub verified_issuer : Bool
  pub issuers : List VerifiedIssuer

pub record BackendLocFees : Type 0 where
  pub value_fee : Option Text
  pub legal_fee : Option Text
  pub collection_item_fee : Option Text
  pub tokens_record_fee : Option Text

-- interface LocRequest of the backend
pub record LocRequest : Type 0 where
  pub owner_address : String
  pub requester_address : Option SupportedAccountId
  pub requester_identity_loc : Option String
  pub description : String
  pub loc_type : LocType
  pub created_on : String
  pub decision_on : Option String
  pub id : String
  pub status : LocRequestStatus
  pub reject_reason : Option String
  pub identity_loc : Option String
  pub closed_on : Option String
  pub files : List LocFile
  pub metadata : List LocMetadataItem
  pub links : List LocLink
  pub void_info : Option LocRequestVoidInfo
  pub seal : Option String
  pub company : Option String
  pub vote_id : Option String
  pub template : Option String
  pub sponsorship_id : Option String
  pub fees : Option BackendLocFees

-- interface LegalOfficerCase of the chain
pub record LegalOfficerCase : Type 0 where
  pub owner : String
  pub requester_address : Option ValidAccountId
  pub requester_loc_id : Option Uuid
  pub metadata : List ChainMetadataItem
  pub files : List ChainFile
  pub links : List ChainLink
  pub closed : Bool
  pub loc_type : LocType
  pub replacer : Option (Option Uuid)
  pub replacer_of : Option Uuid
  pub collection_last_block_submission : Option ℕ
  pub collection_max_size : Option ℕ
  pub collection_can_upload : Bool
  pub seal : Option String
  pub sponsorship_id : Option Uuid
  pub value_fee : Lgnt
  pub collection_item_fee : Lgnt
  pub tokens_record_fee : Lgnt
  pub legal_fee : Lgnt

-- interface ItemLifecycle of Loc.ts: dates are times
pub record ItemLifecycle : Type 0 where
  pub added_on : Option ℕ
  pub reviewed_on : Option ℕ
  pub acknowledged_by_owner_on : Option ℕ
  pub acknowledged_by_verified_issuer_on : Option ℕ
  pub published : Bool
  pub status : ItemStatus
  pub reject_reason : Option String
  pub acknowledged_by_owner : Bool
  pub acknowledged_by_verified_issuer : Bool

pub record MergedLink : Type 0 where
  pub lifecycle : ItemLifecycle
  pub target : Uuid
  pub nature : HashString
  pub fees : Option FeesView
  pub submitter : ValidAccountId

pub record MergedFile : Type 0 where
  pub lifecycle : ItemLifecycle
  pub hash : Hash
  pub nature : HashString
  pub name : String
  pub restricted_delivery : Bool
  pub content_type : String
  pub fees : Option FeesView
  pub submitter : ValidAccountId
  pub size : ℤ

pub record MergedMetadataItem : Type 0 where
  pub lifecycle : ItemLifecycle
  pub name : HashString
  pub value : HashString
  pub fees : Option FeesView
  pub submitter : ValidAccountId

pub record LocFees : Type 0 where
  pub value_fee : Option Lgnt
  pub legal_fee : Option Lgnt
  pub collection_item_fee : Option Lgnt
  pub tokens_record_fee : Option Lgnt

pub record LocData : Type 0 where
  pub id : Uuid
  pub owner_address : String
  pub requester_address : Option ValidAccountId
  pub requester_loc_id : Option Uuid
  pub description : String
  pub loc_type : LocType
  pub created_on : ℕ
  pub decision_on : Option ℕ
  pub closed_on : Option ℕ
  pub status : LocRequestStatus
  pub void_info : Option VoidInfo
  pub replacer_of : Option Uuid
  pub reject_reason : Option String
  pub identity_loc_id : Option Uuid
  pub collection_last_block_submission : Option ℕ
  pub collection_max_size : Option ℕ
  pub collection_can_upload : Option Bool
  pub files : List MergedFile
  pub metadata : List MergedMetadataItem
  pub links : List MergedLink
  pub seal : Option String
  pub company : Option String
  pub vote_id : Option String
  pub template : Option String
  pub sponsorship_id : Option Uuid
  pub fees : LocFees
  pub issuers : LocVerifiedIssuers
  pub invited_contributors : List ValidAccountId
