-- ===== src/Tests/Licenses.antt =====
-- Terms and conditions: packages/client/src/license and packages/client/src/CollectionItem.ts.
use text.Mathlib.Text.{◌==◌}
use logion_api.Hash.{hex_digit, hex_digits, to_hex, equal_to}
use logion_api.Numbers.Text.{text_eq}
use logion_api.Common.{replicate}
use logion_api.Common.{
  ◌≡◌, ◌↔◌, refl, inl, String, Bool, true, some, none, [], ◌∷◌, Result, ok, throw, List,
  if◌then◌else◌,
}
use logion_api.Common.Texts.{show}
use logion_api.License.Validator.{
  Parameters, report, is_unknown, mutually_exclusive, code_present_for_condition, valid_iso_date,
  contains, all_codes_valid, country_codes_valid, all_country_codes_valid, throw_errors,
  valid_or_throw,
}
use logion_api.License.Classification.{
  expiration_set, regional_limit_set, checked, checked_commercial, is_commercial, check_validity,
  Details, to_details, Element, Language, en, new_classification, from_details, details_of,
  transferred_rights, description_of,
}
use logion_api.License.Rules.{IsValid}
use logion_api.License.Validity.{check_validity-IsValid}
use logion_api.License.Rights.{AllListed, descriptions, from_details-details_of}
use logion_api.License.Elements.{
  Hashing, Merged, HashString, specific_license, is_valid_value, valid_value,
  to_terms_and_conditions_element, element_of, new_specific_license,
}
use logion_api.CollectionItem.{
  CollectionItem, new_collection_item, valid_terms_and_conditions, to_elements, is_valid_element,
  classifications, all_commons, specific_licenses, first_one,
}
use logion_api.CollectionItem.Authenticity.{Keeps, Authentic, new_collection_item-Authentic}

validity : Unit {0}
unfolding report is_unknown mutually_exclusive code_present_for_condition valid_iso_date contains
    all_codes_valid country_codes_valid all_country_codes_valid throw_errors valid_or_throw
    expiration_set regional_limit_set checked checked_commercial is_commercial check_validity show
validity = tt

-- The example of the class's comment.
abbrev limited : Parameters
limited = record {
  transferred_rights = "PER-PRIV" ∷ "REG" ∷ "TIME" ∷ [];
  regional_limit = some ("BE" ∷ "FR" ∷ "US" ∷ []);
  expiration = some "2022-09-23";
}

abbrev is_date : String → Bool
is_date date = date == "2022-09-23"

limited_ok : check_validity is_date limited ≡ ok tt
unfolding validity
limited_ok = refl

-- An empty code is not reported, and neither is a name that all objects have.
empty_code_ok :
    (check_validity is_date (record {
      transferred_rights = "PER-PUB" ∷ "" ∷ [];
      regional_limit = none;
      expiration = none;
    })
      ≡ ok tt)
    × (check_validity is_date (record {
      transferred_rights = "PER-PUB" ∷ "toString" ∷ [];
      regional_limit = none;
      expiration = none;
    })
        ≡ ok tt)
unfolding validity
empty_code_ok = (refl, refl)

-- It has no description.
empty_code_description :
    description_of en "" ≡ throw "TypeError: Cannot read properties of undefined"
unfolding description_of
empty_code_description = refl

two_errors :
    check_validity is_date (record {
      transferred_rights = "PER-PUB" ∷ "X" ∷ "EX" ∷ "NOEX" ∷ [];
      regional_limit = none;
      expiration = none;
    })
    ≡ throw "Unknown code(s): X; Transferred rights are mutually exclusive: EX and NOEX"
unfolding validity
two_errors = refl

check_validity-IsValid_example : (check_validity is_date limited ≡ ok tt) ↔ IsValid is_date limited
check_validity-IsValid_example = check_validity-IsValid is_date limited

limited-IsValid : IsValid is_date limited
limited-IsValid = (check_validity-IsValid is_date limited).0 limited_ok

limited-AllListed : AllListed limited.transferred_rights
unfolding AllListed
limited-AllListed = ((_, refl), (((_, refl), (((_, refl), tt)))))

abbrev text_of_limited : String
text_of_limited =
    "{\"transferredRights\":[\"PER-PRIV\",\"REG\",\"TIME\"],\"regionalLimit\":[\"BE\",\"FR\",\"US\"],\"expiration\":\"2022-09-23\"}"

-- A reader and a writer of that one classification.
abbrev read_limited : String → Result Details
read_limited text = if text == text_of_limited then ok (to_details limited) else throw "SyntaxError"

abbrev write_limited : Details → String
write_limited details = text_of_limited

from_details-details_of_example :
    (element : Element String Details) × (new_classification is_date "loc" (to_details limited) true
      ≡ ok element)
    × (from_details read_limited is_date "loc" (details_of write_limited element) true ≡ ok element)
    × ((lang : Language)
        → transferred_rights lang element
          ≡ ok (descriptions lang limited.transferred_rights limited-AllListed))
from_details-details_of_example =
    from_details-details_of is_date "loc" read_limited write_limited limited refl limited-IsValid
      limited-AllListed

-- A digest that tells two texts apart.
abbrev plain : Hashing
plain text = record { bytes = if text == "mine" then replicate 32 1 else replicate 32 2 }

abbrev text_hash : String → HashString
text_hash text = record { hash = plain text; value = some text }

-- The second element has details that the chain has not.
abbrev two_elements : List (Merged String)
two_elements =
    record { tc_type = text_hash "specific_license"; tc_loc_id = "loc"; details = text_hash "mine" }
    ∷ record {
      tc_type = text_hash "specific_license";
      tc_loc_id = "loc";
      details = record { hash = plain "mine"; value = some "forged" };
    }
    ∷ []

abbrev one_license : CollectionItem String
one_license = record {
  classification = none;
  commons = none;
  licenses = record { tc_loc_id = "loc"; parameters = "mine" } ∷ [];
}

items : Unit {0}
unfolding hex_digit hex_digits to_hex equal_to text_eq is_valid_value valid_value
    to_terms_and_conditions_element element_of new_specific_license new_collection_item
    valid_terms_and_conditions to_elements is_valid_element classifications all_commons
    specific_licenses first_one Keeps
items = tt

two_elements_item : new_collection_item plain read_limited is_date two_elements ≡ ok one_license
unfolding items
two_elements_item = refl

mine_kept :
    Keeps plain read_limited is_date one_license
      (specific_license (record { tc_loc_id = "loc"; parameters = "mine" }))
unfolding items
mine_kept = inl refl

new_collection_item-Authentic_example :
    Authentic plain read_limited is_date two_elements
      (specific_license (record { tc_loc_id = "loc"; parameters = "mine" }))
new_collection_item-Authentic_example =
    new_collection_item-Authentic plain read_limited is_date two_elements one_license
      (specific_license (record { tc_loc_id = "loc"; parameters = "mine" })) two_elements_item
      mine_kept
