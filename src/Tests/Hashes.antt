-- ===== src/Tests/Hashes.antt =====
-- Hashes and certified copies: packages/node-api/src/Hash.ts, packages/client/src/Deliveries.ts.
use logion_api.Common.{
  ℕ, ◌≡◌, ◌↔◌, refl, true, ok, throw, replicate, arith, List, [], ◌∷◌, some, ◌⊎◌,
}
use logion_api.Common.Texts.{show}
use logion_api.Numbers.Text.{Text, text_eq}
use logion_api.Hash.{
  Hash, is_valid_bytes, new_hash, hex_digit, hex_digits, to_hex, is_valid_hex_hash, from_hex,
  equal_to, is_hex_digit, all_hex, digit_value, bytes_of, after_prefix,
}
use logion_api.Deliveries.{
  ItemDelivery, ItemDeliveries, CheckCertifiedCopyResult, positive, negative, no_copy, check_type,
  find_copy, result_of, answer, check_certified_copy,
}
use logion_api.Deliveries.Search.{Certified, NoCopy, check_certified_copy-Certified}
use logion_api.Hash.Hex.{AllBytes, from_hex-to_hex, equal_to_iff}

hashes : Unit {0}
unfolding is_valid_bytes new_hash hex_digit hex_digits to_hex text_eq AllBytes show
hashes = tt

abbrev ones : List ℕ
ones = replicate 32 171

abbrev hash_of_ones : Hash
hash_of_ones = record { bytes = ones }

ones_hash : new_hash ones ≡ ok hash_of_ones
unfolding hashes
ones_hash = refl

short : new_hash [] ≡ throw "Array must be 32 bytes long, got 0"
unfolding hashes
short = refl

ones-AllBytes : AllBytes ones
unfolding hashes
ones-AllBytes = ground arith

from_hex-to_hex_example :
    (is_valid_hex_hash (to_hex hash_of_ones) ≡ true)
    × (from_hex (to_hex hash_of_ones) ≡ ok hash_of_ones)
from_hex-to_hex_example = from_hex-to_hex ones hash_of_ones ones_hash ones-AllBytes

equal_to_iff_example : (equal_to hash_of_ones hash_of_ones ≡ true) ↔ (ones ≡ ones)
equal_to_iff_example = equal_to_iff hash_of_ones hash_of_ones ones-AllBytes ones-AllBytes

-- The second delivery of a file whose hash is all zeros.
abbrev zeros_text : Text
zeros_text = to_hex (record { bytes = replicate 32 0 })

abbrev delivery_of : Text → ItemDelivery
delivery_of copy_hash = record {
  copy_hash = copy_hash;
  generated_on = [];
  owner = [];
  belongs_to_current_owner = true;
}

abbrev two_deliveries : ItemDeliveries
two_deliveries = (zeros_text, delivery_of zeros_text ∷ delivery_of (to_hex hash_of_ones) ∷ []) ∷ []

abbrev second_result : CheckCertifiedCopyResult
second_result = record {
  found = some (record {
    delivery = delivery_of (to_hex hash_of_ones);
    original_file_hash = record { bytes = replicate 32 0 };
  });
  summary = negative;
  logion_origin = positive;
  nft_ownership = positive;
  latest = negative;
}

deliveries : Unit {0}
unfolding hashes check_type find_copy result_of answer check_certified_copy from_hex
    is_valid_hex_hash is_hex_digit all_hex digit_value bytes_of after_prefix
deliveries = tt

second_found : check_certified_copy two_deliveries hash_of_ones ≡ ok second_result
unfolding deliveries
second_found = refl

check_certified_copy-Certified_example :
    Certified two_deliveries hash_of_ones second_result
    ⊎ ((second_result ≡ no_copy) × NoCopy hash_of_ones two_deliveries)
check_certified_copy-Certified_example =
    check_certified_copy-Certified two_deliveries hash_of_ones second_result second_found
