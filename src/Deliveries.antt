-- ===== src/Deliveries.antt =====
-- `checkCertifiedCopy` of packages/client/src/Deliveries.ts: the search of a copy, by its hash,
-- among the deliveries of a collection item.
pub mod Search
use logion_api.Common.{
  ℕ, zero, suc, Bool, true, false, ◌&&◌, Option, none, some, List, [], ◌∷◌, Result, ok, throw,
  ◌>>=◌, if◌then◌else◌, ◌==◌,
}
use logion_api.Numbers.Text.{Text, text_eq}
use logion_api.Hash.{Hash, to_hex, from_hex}

pub record ItemDelivery : Type 0 where
  pub copy_hash : Text
  pub generated_on : Text
  pub owner : Text
  pub belongs_to_current_owner : Bool

-- the deliveries by the hash of the original file, in the order of `Object.keys`
abbrev pub ItemDeliveries : Type 0
ItemDeliveries = List (Text × List ItemDelivery)

pub data CheckResultType : Type 0 where
  positive negative : CheckResultType

pub record ItemDeliveryMatch : Type 0 where
  pub delivery : ItemDelivery
  pub original_file_hash : Hash

pub record CheckCertifiedCopyResult : Type 0 where
  pub found : Option ItemDeliveryMatch
  pub summary : CheckResultType
  pub logion_origin : CheckResultType
  pub nft_ownership : CheckResultType
  pub latest : CheckResultType

unfoldable pub check_type : Bool → CheckResultType
check_type true = positive
check_type false = negative

-- the inner loop, from the delivery at index `i` on: the first copy with the hash, and its index
unfoldable pub find_copy : Hash → ℕ → List ItemDelivery → Option (ℕ × ItemDelivery)
find_copy hash i [] = none
find_copy hash i (delivery ∷ deliveries) =
    if text_eq delivery.copy_hash (to_hex hash)
    then some (i, delivery)
    else find_copy hash (suc i) deliveries

-- what is returned for a copy at that index
unfoldable pub result_of : Text → ℕ → ItemDelivery → Result CheckCertifiedCopyResult
result_of original i delivery = do
  original_file_hash ← from_hex original
  ok (record {
    found = some (record { delivery = delivery; original_file_hash = original_file_hash });
    summary = check_type ((i == 0) && delivery.belongs_to_current_owner);
    logion_origin = positive;
    latest = check_type (i == 0);
    nft_ownership = check_type delivery.belongs_to_current_owner;
  })

abbrev pub no_copy : CheckCertifiedCopyResult
no_copy = record {
  found = none;
  summary = negative;
  logion_origin = negative;
  latest = negative;
  nft_ownership = negative;
}

-- a copy that was found ends the outer loop
unfoldable pub answer :
    Text
    → Option (ℕ × ItemDelivery)
    → Result CheckCertifiedCopyResult
    → Result CheckCertifiedCopyResult
answer original (some (i, delivery)) later = result_of original i delivery
answer original none later = later

-- the outer loop
unfoldable pub check_certified_copy : ItemDeliveries → Hash → Result CheckCertifiedCopyResult
check_certified_copy [] hash = ok no_copy
check_certified_copy ((original, deliveries) ∷ rest) hash =
    answer original (find_copy hash 0 deliveries) (check_certified_copy rest hash)
