-- ===== src/Loc/OpenLoc.antt =====
-- The publication and acknowledgement of items by an open LOC, OpenLoc and
-- LegalOfficerOpenRequestCommands of packages/client/src/Loc.ts, up to the refresh of the LOC.
pub mod Callers
pub mod Permissions
use logion_api.Common.{
  ℕ, String, Bool, true, false, not, ◌&&◌, ◌||◌, Option, none, some, List, [], ◌∷◌, Result, ok,
  throw, if◌then◌else◌, or_throw,
}
use logion_api.Common
use logion_api.Common.Int.{ℤ, pos, negsuc}
use logion_api.Common.Texts.{template}
use logion_api.Numbers.Text.{text_eq}
use logion_api.Numbers.BigInt.{big_int}
use logion_api.Hash.{Hash, to_hex, equal_to}
use logion_api.Calls.{Uuid, Run, reading, ◌>>=◌, ◌>>◌}
use logion_api.LocClient.{
  AccountType, polkadot, ethereum, bech32, ValidAccountId, FileParams, LinkParams, Submittable,
  AuthenticatedLocClient,
}
use logion_api.LocClient.Items.{
  PublishedMetadata, publish_file, publish_metadata, publish_link, acknowledge_published_file,
  acknowledge_published_metadata, acknowledge_published_link,
}
use logion_api.Loc.{
  ItemStatus, SupportedAccountId, LocFile, LocMetadataItem, LocLink, LocRequest, LocVerifiedIssuers,
  MergedFile, MergedMetadataItem, MergedLink, LocData,
}
use logion_api.Loc.Merging.{Readers, find}
use logion_api.Loc.Closing.{same_status, is_polkadot, is_verified_issuer}
use text.Mathlib.Text

unfoldable pub same_type : AccountType → AccountType → Bool
same_type polkadot other = is_polkadot other
same_type ethereum ethereum = true
same_type ethereum polkadot = false
same_type ethereum bech32 = false
same_type bech32 bech32 = true
same_type bech32 polkadot = false
same_type bech32 ethereum = false

-- `equals` of ValidAccountId
unfoldable pub equals : ValidAccountId → SupportedAccountId → Bool
equals account other = same_type account.type other.type && Text.◌==◌ account.address other.address

-- What the methods of an OpenLoc read: its request, its verified issuers, and the current address.
pub record OpenLoc : Type 0 where
  pub request : LocRequest
  pub loc_id : Uuid
  pub loc_issuers : LocVerifiedIssuers
  pub current_address : Option ValidAccountId

unfoldable pub is_requester : OpenLoc → Bool
is_requester loc = elim loc.request.requester_address [
  | none ↦ false
  | some requester ↦ elim loc.current_address [
    | none ↦ false
    | some account ↦ equals account requester
  ]
]

unfoldable pub is_owner : OpenLoc → Bool
is_owner loc = elim loc.current_address [
  | none ↦ false
  | some account ↦ is_polkadot account.type && Text.◌==◌ account.address loc.request.owner_address
]

unfoldable pub is_issuer : OpenLoc → Bool
is_issuer loc = elim loc.current_address [
  | none ↦ false
  | some account ↦ is_verified_issuer loc.loc_issuers account
]

unfoldable pub ensure_can_publish : OpenLoc → Result (Unit {0})
ensure_can_publish loc = elim loc.request.requester_address [
  | some requester ↦ if is_requester loc then ok tt else throw "Only requester can publish"
  | none ↦ if is_owner loc then ok tt else throw "Only owner can publish"
]

unfoldable pub ensure_can_acknowledge : OpenLoc → Result (Unit {0})
ensure_can_acknowledge loc =
    if is_owner loc || is_issuer loc
    then ok tt
    else throw "Only owner or a verified issuer can acknowledge"

-- the size of a file in a transaction, which is a natural number
unfoldable pub encodable : ℤ → Result ℕ
encodable (pos n) = ok n
encodable (negsuc n) = throw "Out of range"

-- What `findFile` returns.
pub record FoundFile : Type 0 where
  pub hash : Hash
  pub nature : Hash
  pub size : ℤ
  pub submitter : ValidAccountId

unfoldable pub has_file : Hash → ItemStatus → LocFile → Bool
has_file hash status file =
    text_eq file.hash (to_hex hash) && same_status file.lifecycle.status status

unfoldable pub has_metadata : Hash → ItemStatus → LocMetadataItem → Bool
has_metadata name_hash status item =
    text_eq item.name_hash (to_hex name_hash) && same_status item.lifecycle.status status

unfoldable pub has_link : Uuid → ItemStatus → LocLink → Bool
has_link target status link =
    Text.◌==◌ link.target target && same_status link.lifecycle.status status

-- the errors do not tell the hash here
module _ (readers : Readers) where
  unfoldable pub find_file : OpenLoc → Hash → ItemStatus → Result FoundFile
  find_file loc hash status =
      Common.◌>>=◌ (or_throw "File was not found" (find (has_file hash status) loc.request.files))
        (λ file. Common.◌>>=◌ (big_int file.size) (λ size.
          Common.◌>>=◌ (readers.valid_account_id file.submitter) (λ submitter. ok (record {
            hash = hash;
            nature = readers.hashing file.nature;
            size = size;
            submitter = submitter;
          }))))

  unfoldable pub find_metadata : OpenLoc → Hash → ItemStatus → Result PublishedMetadata
  find_metadata loc name_hash status =
      Common.◌>>=◌
        (or_throw "Metadata was not found"
          (find (has_metadata name_hash status) loc.request.metadata))
        (λ item. Common.◌>>=◌ (readers.valid_account_id item.submitter) (λ submitter.
          ok (record { name = item.name; value = item.value; submitter = submitter })))

  unfoldable pub find_link : OpenLoc → Uuid → ItemStatus → Result LinkParams
  find_link loc target status =
      Common.◌>>=◌ (or_throw "Link was not found" (find (has_link target status) loc.request.links))
        (λ link. Common.◌>>=◌ (readers.valid_account_id link.submitter) (λ submitter.
          ok (record { id = target; nature = readers.hashing link.nature; submitter = submitter })))

unfoldable pub to_publish : FoundFile → Result FileParams
to_publish file = Common.◌>>=◌ (encodable file.size) (λ size.
    ok (record { hash = file.hash; nature = file.nature; size = size; submitter = file.submitter }))

module _ {W : Type 0} (readers : Readers) (client : AuthenticatedLocClient W) (loc : OpenLoc) where
  unfoldable pub publish_loc_file : Hash → Run Submittable W (Unit {0})
  publish_loc_file hash =
      reading (λ w. ensure_can_publish loc)
      >> (reading
            (λ w. Common.◌>>=◌ (find_file readers loc hash ItemStatus.review_accepted) to_publish)
          >>= publish_file client loc.loc_id)

  unfoldable pub publish_loc_metadata : Hash → Run Submittable W (Unit {0})
  publish_loc_metadata name_hash =
      reading (λ w. ensure_can_publish loc)
      >> (reading (λ w. find_metadata readers loc name_hash ItemStatus.review_accepted)
          >>= publish_metadata client loc.loc_id)

  unfoldable pub publish_loc_link : Uuid → Run Submittable W (Unit {0})
  publish_loc_link target =
      reading (λ w. ensure_can_publish loc)
      >> (reading (λ w. find_link readers loc target ItemStatus.review_accepted)
          >>= publish_link client loc.loc_id)

  unfoldable pub acknowledge_loc_file : Hash → Run Submittable W (Unit {0})
  acknowledge_loc_file hash =
      reading (λ w. ensure_can_acknowledge loc)
      >> (reading (λ w. find_file readers loc hash ItemStatus.published) >>= λ file.
          acknowledge_published_file client loc.loc_id hash)

  unfoldable pub acknowledge_loc_metadata : Hash → Run Submittable W (Unit {0})
  acknowledge_loc_metadata name_hash =
      reading (λ w. ensure_can_acknowledge loc)
      >> (reading (λ w. find_metadata readers loc name_hash ItemStatus.published) >>= λ item.
          acknowledge_published_metadata client loc.loc_id name_hash)

  unfoldable pub acknowledge_loc_link : Uuid → Run Submittable W (Unit {0})
  acknowledge_loc_link target =
      reading (λ w. ensure_can_acknowledge loc)
      >> (reading (λ w. find_link readers loc target ItemStatus.published) >>= λ link.
          acknowledge_published_link client loc.loc_id target)
