-- ===== src/Loc/Merging.antt =====
-- The items of a LOC, packages/client/src/Loc.ts: what the backend tells of them, merged with what
-- the chain tells.
use logion_api.Common.{
  ℕ, String, Bool, true, false, Option, none, some, List, [], ◌∷◌, Result, ok, ◌>>=◌, if◌then◌else◌,
}
use logion_api.Common.Int.{pos}
use logion_api.Common.Texts.{is_empty}
use logion_api.Numbers.Text.{text_eq}
use logion_api.Numbers.BigInt.{big_int}
use logion_api.Hash.{to_hex, from_hex}
use logion_api.License.Elements.{Hashing, from_value}
use logion_api.Calls.{Uuid}
use logion_api.LocClient.{ValidAccountId}
use logion_api.Loc.{
  SupportedAccountId, BackendItemLifecycle, LocFile, LocMetadataItem, LocLink, LocItemAck,
  ChainFile, ChainMetadataItem, ChainLink, LegalOfficerCase, ItemLifecycle, MergedLink, MergedFile,
  MergedMetadataItem,
}
use text.Mathlib.Text.{◌==◌}

-- What the code calls: fromIsoString, the constructor of a UUID, getValidAccountId of the queries,
-- and Hash.of.
pub record Readers : Type 0 where
  pub from_iso_string : String → ℕ
  pub new_uuid : String → Result Uuid
  pub valid_account_id : SupportedAccountId → Result ValidAccountId
  pub hashing : Hashing

-- `array.map(f)`, where f may throw
unfoldable pub map_result : {A B : Type 0} → (A → Result B) → List A → Result (List B)
map_result f [] = ok []
map_result f (a ∷ as_) = do b ← f a; bs ← map_result f as_; ok (b ∷ bs)

-- `array.find(test)`
unfoldable pub find : {A : Type 0} → (A → Bool) → List A → Option A
find test [] = none
find test (a ∷ as_) = if test a then some a else find test as_

-- `value ? value : undefined`, for a text
unfoldable pub if_text : Option String → Option String
if_text none = none
if_text (some text) = if is_empty text then none else some text

-- `value ? f(value) : undefined`, where f may throw
unfoldable pub read_if : {A : Type 0} → (String → Result A) → Option String → Result (Option A)
read_if f value = elim (if_text value) [ none ↦ ok none | some text ↦ f text >>= λ a. ok (some a) ]

unfoldable pub no_ack : LocItemAck
no_ack = record { acknowledged_by_owner = false; acknowledged_by_verified_issuer = false }

-- the items of the chain, if the LOC is there
unfoldable pub chain_files : Option LegalOfficerCase → List ChainFile
chain_files none = []
chain_files (some loc) = loc.files

unfoldable pub chain_metadata : Option LegalOfficerCase → List ChainMetadataItem
chain_metadata none = []
chain_metadata (some loc) = loc.metadata

unfoldable pub chain_links : Option LegalOfficerCase → List ChainLink
chain_links none = []
chain_links (some loc) = loc.links

module _ (readers : Readers) where
  -- `value ? fromIsoString(value) : undefined`
  unfoldable pub date_of : Option String → Option ℕ
  date_of value = elim (if_text value) [
    | none ↦ none
    | some text ↦ some (readers.from_iso_string text)
  ]

  unfoldable pub parse_item_lifecycle_dates :
      BackendItemLifecycle → Bool → LocItemAck → ItemLifecycle
  parse_item_lifecycle_dates args published ack = record {
    added_on = date_of args.added_on;
    reviewed_on = date_of args.reviewed_on;
    acknowledged_by_owner_on = date_of args.acknowledged_by_owner_on;
    acknowledged_by_verified_issuer_on = date_of args.acknowledged_by_verified_issuer_on;
    published = published;
    status = args.status;
    reject_reason = args.reject_reason;
    acknowledged_by_owner = ack.acknowledged_by_owner;
    acknowledged_by_verified_issuer = ack.acknowledged_by_verified_issuer;
  }

  -- the branch of an item that the chain has
  unfoldable pub published_metadata : LocMetadataItem → ChainMetadataItem → MergedMetadataItem
  published_metadata item chain_item = record {
    lifecycle = parse_item_lifecycle_dates item.lifecycle true chain_item.ack;
    submitter = chain_item.params.submitter;
    fees = item.fees;
    name = record { hash = chain_item.params.name; value = some item.name };
    value = record { hash = chain_item.params.value; value = some item.value };
  }

  -- the branch of an item that only the backend has
  unfoldable pub unpublished_metadata : LocMetadataItem → Result MergedMetadataItem
  unpublished_metadata item = do
    submitter ← readers.valid_account_id item.submitter
    ok (record {
      lifecycle = parse_item_lifecycle_dates item.lifecycle false no_ack;
      submitter = submitter;
      fees = item.fees;
      name = from_value readers.hashing item.name;
      value = from_value readers.hashing item.value;
    })

  unfoldable pub merge_metadata :
      Option LegalOfficerCase → LocMetadataItem → Result MergedMetadataItem
  merge_metadata chain_loc item =
      elim (find (λ chain_item. text_eq (to_hex chain_item.params.name) item.name_hash)
        (chain_metadata chain_loc)) [
          | some chain_item ↦ ok (published_metadata item chain_item)
          | none ↦ unpublished_metadata item
        ]

  -- the branch of an item that the chain has
  unfoldable pub published_file : LocFile → ChainFile → MergedFile
  published_file file chain_file = record {
    lifecycle = parse_item_lifecycle_dates file.lifecycle true chain_file.ack;
    submitter = chain_file.params.submitter;
    fees = file.fees;
    name = file.name;
    nature = record { hash = chain_file.params.nature; value = some file.nature };
    size = pos chain_file.params.size;
    restricted_delivery = file.restricted_delivery;
    hash = chain_file.params.hash;
    content_type = file.content_type;
  }

  -- the branch of an item that only the backend has
  unfoldable pub unpublished_file : LocFile → Result MergedFile
  unpublished_file file = do
    submitter ← readers.valid_account_id file.submitter
    size ← big_int file.size
    hash ← from_hex file.hash
    ok (record {
      lifecycle = parse_item_lifecycle_dates file.lifecycle false no_ack;
      submitter = submitter;
      fees = file.fees;
      name = file.name;
      nature = from_value readers.hashing file.nature;
      size = size;
      restricted_delivery = file.restricted_delivery;
      hash = hash;
      content_type = file.content_type;
    })

  unfoldable pub merge_file : Option LegalOfficerCase → LocFile → Result MergedFile
  merge_file chain_loc file =
      elim (find (λ chain_file. text_eq (to_hex chain_file.params.hash) file.hash)
        (chain_files chain_loc)) [
          | some chain_file ↦ ok (published_file file chain_file)
          | none ↦ unpublished_file file
        ]

  -- the branch of an item that the chain has
  unfoldable pub published_link : LocLink → ChainLink → MergedLink
  published_link link chain_link = record {
    lifecycle = parse_item_lifecycle_dates link.lifecycle true chain_link.ack;
    submitter = chain_link.params.submitter;
    fees = link.fees;
    nature = record { hash = chain_link.params.nature; value = some link.nature };
    target = chain_link.params.id;
  }

  -- the branch of an item that only the backend has
  unfoldable pub unpublished_link : LocLink → Result MergedLink
  unpublished_link link = do
    submitter ← readers.valid_account_id link.submitter
    target ← readers.new_uuid link.target
    ok (record {
      lifecycle = parse_item_lifecycle_dates link.lifecycle false no_ack;
      submitter = submitter;
      fees = link.fees;
      nature = from_value readers.hashing link.nature;
      target = target;
    })

  unfoldable pub merge_link : Option LegalOfficerCase → LocLink → Result MergedLink
  merge_link chain_loc link =
      elim (find (λ chain_link. chain_link.params.id == link.target) (chain_links chain_loc)) [
        | some chain_link ↦ ok (published_link link chain_link)
        | none ↦ unpublished_link link
      ]
