-- ===== src/Loc/Data.antt =====
-- The data of a LOC, packages/client/src/Loc.ts: what the backend tells of a LOC and its items,
-- merged with what the chain tells.
pub mod Backing
use logion_api.Common.{
  ℕ, String, Bool, true, false, Option, none, some, List, [], ◌∷◌, Result, ok, throw, ◌>>=◌,
  if◌then◌else◌,
}
use logion_api.Common.Int.{ℤ, pos}
use logion_api.Common.Texts.{is_empty}
use logion_api.Numbers.Text.{Text, text_eq, codes}
use logion_api.Numbers.BigInt.{big_int}
use logion_api.Hash.{Hash, to_hex, from_hex, equal_to}
use logion_api.Currency.{Lgnt, from_canonical}
use logion_api.License.Elements.{Hashing, HashString, from_value}
use logion_api.Calls.{Uuid}
use logion_api.LocClient.{ValidAccountId}
use logion_api.Loc.{
  SupportedAccountId, BackendItemLifecycle, LocFile, LocMetadataItem, LocLink, LocItemAck,
  ChainFile, ChainMetadataItem, ChainLink, VoidInfo, LocRequestVoidInfo, LocVerifiedIssuers,
  BackendLocFees, LocRequest, LegalOfficerCase, ItemLifecycle, MergedLink, MergedFile,
  MergedMetadataItem, LocFees, LocData,
}
use text.Mathlib.Text.{◌==◌}
use logion_api.Loc.Merging.{
  Readers, chain_files, chain_links, chain_metadata, date_of, find, if_text, map_result, merge_file,
  merge_link, merge_metadata, no_ack, parse_item_lifecycle_dates, published_file, published_link,
  published_metadata, read_if, unpublished_file, unpublished_link, unpublished_metadata,
}

-- `fee !== undefined ? Lgnt.fromCanonical(BigInt(fee)) : undefined`
unfoldable pub read_fee : Option Text → Result (Option Lgnt)
read_fee none = ok none
read_fee (some fee) = do z ← big_int fee; ok (some (from_canonical z))

unfoldable pub no_loc_fees : BackendLocFees
no_loc_fees = record {
  value_fee = none;
  legal_fee = none;
  collection_item_fee = none;
  tokens_record_fee = none;
}

-- `request.fees?.…`
unfoldable pub backend_fees : Option BackendLocFees → BackendLocFees
backend_fees none = no_loc_fees
backend_fees (some fees) = fees

unfoldable pub read_loc_fees : Option BackendLocFees → Result LocFees
read_loc_fees fees = do
  value_fee ← read_fee (backend_fees fees).value_fee
  legal_fee ← read_fee (backend_fees fees).legal_fee
  collection_item_fee ← read_fee (backend_fees fees).collection_item_fee
  tokens_record_fee ← read_fee (backend_fees fees).tokens_record_fee
  ok (record {
    value_fee = value_fee;
    legal_fee = legal_fee;
    collection_item_fee = collection_item_fee;
    tokens_record_fee = tokens_record_fee;
  })

unfoldable pub read_account :
    (SupportedAccountId → Result ValidAccountId)
    → Option SupportedAccountId
    → Result (Option ValidAccountId)
read_account valid none = ok none
read_account valid (some account) = do a ← valid account; ok (some a)

-- the void info of the chain, completed with what the backend tells
unfoldable pub void_info_of : Option (Option Uuid) → Option LocRequestVoidInfo → Option VoidInfo
void_info_of none info = none
void_info_of (some replacer) none =
    some (record { replacer = replacer; reason = none; voided_on = none })
void_info_of (some replacer) (some info) =
    some (record { replacer = replacer; reason = info.reason; voided_on = info.voided_on })

module _ (readers : Readers) (loc_issuers : LocVerifiedIssuers)
    (invited_contributors : List ValidAccountId) where
  unfoldable pub data_from_request : LocRequest → Result LocData
  data_from_request request = do
    requester_address ← read_account readers.valid_account_id request.requester_address
    requester_loc_id ← read_if readers.new_uuid request.requester_identity_loc
    id ← readers.new_uuid request.id
    identity_loc_id ← read_if readers.new_uuid request.identity_loc
    metadata ← map_result (merge_metadata readers none) request.metadata
    files ← map_result (merge_file readers none) request.files
    links ← map_result (merge_link readers none) request.links
    sponsorship_id ← read_if readers.new_uuid request.sponsorship_id
    fees ← read_loc_fees request.fees
    ok (record {
      id = id;
      owner_address = request.owner_address;
      requester_address = requester_address;
      requester_loc_id = requester_loc_id;
      description = request.description;
      loc_type = request.loc_type;
      created_on = readers.from_iso_string request.created_on;
      decision_on = date_of readers request.decision_on;
      closed_on = date_of readers request.closed_on;
      status = request.status;
      void_info = none;
      replacer_of = none;
      reject_reason = request.reject_reason;
      identity_loc_id = identity_loc_id;
      collection_last_block_submission = none;
      collection_max_size = none;
      collection_can_upload = none;
      files = files;
      metadata = metadata;
      links = links;
      seal = request.seal;
      company = request.company;
      vote_id = if_text request.vote_id;
      template = request.template;
      sponsorship_id = sponsorship_id;
      fees = fees;
      issuers = loc_issuers;
      invited_contributors = invited_contributors;
    })

  unfoldable pub data_from_request_and_loc : LegalOfficerCase → LocRequest → Result LocData
  data_from_request_and_loc loc request = do
    id ← readers.new_uuid request.id
    identity_loc_id ← read_if readers.new_uuid request.identity_loc
    metadata ← map_result (merge_metadata readers (some loc)) request.metadata
    files ← map_result (merge_file readers (some loc)) request.files
    links ← map_result (merge_link readers (some loc)) request.links
    ok (record {
      id = id;
      owner_address = loc.owner;
      requester_address = loc.requester_address;
      requester_loc_id = loc.requester_loc_id;
      description = request.description;
      loc_type = loc.loc_type;
      created_on = readers.from_iso_string request.created_on;
      decision_on = date_of readers request.decision_on;
      closed_on = date_of readers request.closed_on;
      status = request.status;
      void_info = void_info_of loc.replacer request.void_info;
      replacer_of = loc.replacer_of;
      reject_reason = request.reject_reason;
      identity_loc_id = identity_loc_id;
      collection_last_block_submission = loc.collection_last_block_submission;
      collection_max_size = loc.collection_max_size;
      collection_can_upload = some loc.collection_can_upload;
      files = files;
      metadata = metadata;
      links = links;
      seal = if loc.closed then loc.seal else request.seal;
      company = request.company;
      vote_id = if_text request.vote_id;
      template = request.template;
      sponsorship_id = loc.sponsorship_id;
      fees = record {
        value_fee = some loc.value_fee;
        legal_fee = some loc.legal_fee;
        collection_item_fee = some loc.collection_item_fee;
        tokens_record_fee = some loc.tokens_record_fee;
      };
      issuers = loc_issuers;
      invited_contributors = invited_contributors;
    })

  unfoldable pub build_loc_data : Option LegalOfficerCase → LocRequest → Result LocData
  build_loc_data none request = data_from_request request
  build_loc_data (some loc) request = data_from_request_and_loc loc request

-- interface CheckHashResult
pub record CheckHashResult : Type 0 where
  pub file : Option MergedFile
  pub metadata_item : Option MergedMetadataItem

-- the loops of `checkHash`: each item that matches replaces the one before
unfoldable pub last_match : {A : Type 0} → (A → Bool) → List A → Option A → Option A
last_match test [] found = found
last_match test (item ∷ items) found =
    last_match test items (if test item then some item else found)

unfoldable pub has_value : Hash → MergedMetadataItem → Bool
has_value hash item = elim item.value.value [
  | none ↦ false
  | some value ↦ text_eq (codes value) (to_hex hash)
]

unfoldable pub check_hash : LocData → Hash → CheckHashResult
check_hash loc hash = record {
  file = last_match (λ (file : MergedFile). equal_to file.hash hash) loc.files none;
  metadata_item = last_match (has_value hash) loc.metadata none;
}
