-- ===== src/CollectionItem.antt =====
-- class CollectionItem of packages/client/src/CollectionItem.ts: the terms and conditions that its
-- constructor keeps, and the file of a hash. The calls of the backend are left out.
pub mod Authenticity
use logion_api.Common.{
  String, Bool, true, false, ◌&&◌, Option, none, some, List, [], ◌∷◌, Result, ok, throw, ◌>>=◌,
  if◌then◌else◌,
}
use logion_api.Common.Texts.{keep}
use logion_api.License.Classification.{Element, Details}
use logion_api.License.Elements.{
  Hashing, Terms, logion_classification, creative_commons, specific_license, Merged, is_valid_value,
  to_terms_and_conditions_element,
}

pub record CollectionItem (A : Type 0) : Type 0 where
  pub classification : Option (Element A Details)
  pub commons : Option (Element A String)
  pub licenses : List (Element A String)

module _ {A : Type 0} where
  -- `element.type.isValidValue() && element.details.isValidValue()`
  unfoldable pub is_valid_element : Hashing → Merged A → Bool
  is_valid_element hashing element =
      is_valid_value hashing element.tc_type && is_valid_value hashing element.details

  unfoldable pub to_elements :
      Hashing
      → (String → Result Details)
      → (String → Bool)
      → List (Merged A)
      → Result (List (Terms A))
  to_elements hashing parse is_iso_date [] = ok []
  to_elements hashing parse is_iso_date (m ∷ ms) = do
    element ← to_terms_and_conditions_element hashing parse is_iso_date m
    elements ← to_elements hashing parse is_iso_date ms
    ok (element ∷ elements)

  unfoldable pub valid_terms_and_conditions :
      Hashing
      → (String → Result Details)
      → (String → Bool)
      → List (Merged A)
      → Result (List (Terms A))
  valid_terms_and_conditions hashing parse is_iso_date terms =
      to_elements hashing parse is_iso_date (keep (is_valid_element hashing) terms)

module _ {A : Type 0} where
  unfoldable pub classifications : List (Terms A) → List (Element A Details)
  classifications [] = []
  classifications (logion_classification e ∷ terms) = e ∷ classifications terms
  classifications (creative_commons e ∷ terms) = classifications terms
  classifications (specific_license e ∷ terms) = classifications terms

  unfoldable pub all_commons : List (Terms A) → List (Element A String)
  all_commons [] = []
  all_commons (logion_classification e ∷ terms) = all_commons terms
  all_commons (creative_commons e ∷ terms) = e ∷ all_commons terms
  all_commons (specific_license e ∷ terms) = all_commons terms

  unfoldable pub specific_licenses : List (Terms A) → List (Element A String)
  specific_licenses [] = []
  specific_licenses (logion_classification e ∷ terms) = specific_licenses terms
  specific_licenses (creative_commons e ∷ terms) = specific_licenses terms
  specific_licenses (specific_license e ∷ terms) = e ∷ specific_licenses terms

-- `if(xs.length > 0) { xs[0] } else if(xs.length > 1) { throw }`: the second test never holds
unfoldable pub first_one : {E : Type 0} → List E → Option E
first_one [] = none
first_one (e ∷ elements) = some e

unfoldable pub new_collection_item :
    {A : Type 0}
    → Hashing
    → (String → Result Details)
    → (String → Bool)
    → List (Merged A)
    → Result (CollectionItem A)
new_collection_item hashing parse is_iso_date terms = do
  elements ← valid_terms_and_conditions hashing parse is_iso_date terms
  ok (record {
    classification = first_one (classifications elements);
    commons = first_one (all_commons elements);
    licenses = specific_licenses elements;
  })
