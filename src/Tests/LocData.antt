-- ===== src/Tests/LocData.antt =====
-- The data of a LOC: packages/client/src/Loc.ts.
use logion_api.Common.{◌≡◌, refl, true, false, some, none, [], ◌∷◌, ok, replicate}
use logion_api.Common.Int.{pos}
use logion_api.Numbers.Text.{codes, text_eq}
use logion_api.Hash.{Hash, to_hex, hex_digit, hex_digits}
use logion_api.Currency.{Lgnt}
use logion_api.Fees.Estimator.{transaction}
use logion_api.License.Elements.{from_value}
use logion_api.LocClient.{ValidAccountId, polkadot}
use logion_api.Loc.{
  SupportedAccountId, BackendItemLifecycle, LocItemAck, LocRequest, LegalOfficerCase,
  LocVerifiedIssuers, MergedLink, MergedFile, LocData, published, open_status,
}
use logion_api.Loc.Data.{void_info_of, data_from_request_and_loc, build_loc_data}
use logion_api.Loc.Merging.{
  Readers, map_result, find, if_text, read_if, no_ack, chain_files, chain_metadata, chain_links,
  date_of, parse_item_lifecycle_dates, published_file, published_link, unpublished_link, merge_file,
  merge_link,
}
use logion_api.Loc.Data.Backing.{Backed, build_loc_data-Backed}

abbrev pub hash_of_ones : Hash
hash_of_ones = record { bytes = replicate 32 17 }

abbrev hash_of_zeros : Hash
hash_of_zeros = record { bytes = replicate 32 0 }

abbrev pub readers : Readers
readers = record {
  from_iso_string = λ date. 5;
  new_uuid = λ value. ok value;
  valid_account_id = λ account. ok (record { address = account.address; type = account.type });
  hashing = λ value. hash_of_zeros;
}

abbrev bob : SupportedAccountId
bob = record { type = polkadot; address = "5FHneW46" }

abbrev pub bob_id : ValidAccountId
bob_id = record { address = "5FHneW46"; type = polkadot }

abbrev eve_id : ValidAccountId
eve_id = record { address = "5Eve"; type = polkadot }

-- The backend says of everything that it is published.
abbrev told : BackendItemLifecycle
told = record {
  added_on = some "2022-09-23";
  reviewed_on = none;
  acknowledged_by_owner_on = none;
  acknowledged_by_verified_issuer_on = none;
  status = published;
  reject_reason = none;
}

abbrev pub no_issuers : LocVerifiedIssuers
no_issuers = record { verified_issuer = false; issuers = [] }

abbrev pub request : LocRequest
request = record {
  owner_address = "5Owner";
  requester_address = some bob;
  requester_identity_loc = none;
  description = "a LOC";
  loc_type = transaction;
  created_on = "2022-09-23";
  decision_on = none;
  id = "a-loc";
  status = open_status;
  reject_reason = none;
  identity_loc = none;
  closed_on = none;
  files =
      record {
        lifecycle = told;
        hash = codes "0x1111111111111111111111111111111111111111111111111111111111111111";
        nature = "photo";
        submitter = bob;
        name = "photo.png";
        restricted_delivery = false;
        content_type = "image/png";
        fees = none;
        size = codes "9999";
      }
      ∷ [];
  metadata = [];
  links =
      record { lifecycle = told; target = "other"; nature = "see"; submitter = bob; fees = none }
      ∷ [];
  void_info = none;
  seal = none;
  company = none;
  vote_id = some "";
  template = none;
  sponsorship_id = none;
  fees = none;
}

abbrev acknowledged_by_owner_only : LocItemAck
acknowledged_by_owner_only = record {
  acknowledged_by_owner = true;
  acknowledged_by_verified_issuer = false;
}

abbrev fee : Lgnt
fee = record { canonical = pos 1 }

-- The chain has the file, of 7 bytes, and not the link.
abbrev chain_loc : LegalOfficerCase
chain_loc = record {
  owner = "5Owner";
  requester_address = some bob_id;
  requester_loc_id = none;
  metadata = [];
  files =
      record {
        params = record {
          hash = hash_of_ones;
          nature = hash_of_zeros;
          size = 7;
          submitter = eve_id;
        };
        ack = acknowledged_by_owner_only;
      }
      ∷ [];
  links = [];
  closed = false;
  loc_type = transaction;
  replacer = none;
  replacer_of = none;
  collection_last_block_submission = none;
  collection_max_size = none;
  collection_can_upload = false;
  seal = none;
  sponsorship_id = none;
  value_fee = fee;
  collection_item_fee = fee;
  tokens_record_fee = fee;
  legal_fee = fee;
}

abbrev shown_file : MergedFile
shown_file = record {
  lifecycle = record {
    added_on = some 5;
    reviewed_on = none;
    acknowledged_by_owner_on = none;
    acknowledged_by_verified_issuer_on = none;
    published = true;
    status = published;
    reject_reason = none;
    acknowledged_by_owner = true;
    acknowledged_by_verified_issuer = false;
  };
  hash = hash_of_ones;
  nature = record { hash = hash_of_zeros; value = some "photo" };
  name = "photo.png";
  restricted_delivery = false;
  content_type = "image/png";
  fees = none;
  submitter = eve_id;
  size = pos 7;
}

abbrev shown_link : MergedLink
shown_link = record {
  lifecycle = record {
    added_on = some 5;
    reviewed_on = none;
    acknowledged_by_owner_on = none;
    acknowledged_by_verified_issuer_on = none;
    published = false;
    status = published;
    reject_reason = none;
    acknowledged_by_owner = false;
    acknowledged_by_verified_issuer = false;
  };
  target = "other";
  nature = record { hash = hash_of_zeros; value = some "see" };
  fees = none;
  submitter = bob_id;
}

abbrev pub shown : LocData
shown = record {
  id = "a-loc";
  owner_address = "5Owner";
  requester_address = some bob_id;
  requester_loc_id = none;
  description = "a LOC";
  loc_type = transaction;
  created_on = 5;
  decision_on = none;
  closed_on = none;
  status = open_status;
  void_info = none;
  replacer_of = none;
  reject_reason = none;
  identity_loc_id = none;
  collection_last_block_submission = none;
  collection_max_size = none;
  collection_can_upload = some false;
  files = shown_file ∷ [];
  metadata = [];
  links = shown_link ∷ [];
  seal = none;
  company = none;
  vote_id = none;
  template = none;
  sponsorship_id = none;
  fees = record {
    value_fee = some fee;
    legal_fee = some fee;
    collection_item_fee = some fee;
    tokens_record_fee = some fee;
  };
  issuers = no_issuers;
  invited_contributors = [];
}

loc_data : Unit {0}
unfolding map_result find if_text read_if no_ack chain_files chain_metadata chain_links date_of
    parse_item_lifecycle_dates published_file published_link unpublished_link merge_file merge_link
    void_info_of data_from_request_and_loc build_loc_data to_hex hex_digits hex_digit text_eq
    from_value
loc_data = tt

built : build_loc_data readers no_issuers [] (some chain_loc) request ≡ ok shown
unfolding loc_data
built = refl

build_loc_data-Backed_example : Backed (some chain_loc) request shown
build_loc_data-Backed_example =
    build_loc_data-Backed readers no_issuers [] request shown (some chain_loc) built
