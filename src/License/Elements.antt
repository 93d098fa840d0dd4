-- ===== src/License/Elements.antt =====
-- The terms and conditions elements of packages/client/src/license (CreativeCommons.ts,
-- SpecificLicense.ts, Factory.ts), with HashString of packages/client/src/Hash.ts, and what a
-- CollectionItem (packages/client/src/CollectionItem.ts) keeps of them.
use text.Mathlib.Text.{◌==◌}
use logion_api.Common.{
  String, Bool, false, Option, none, some, List, [], ◌∷◌, Result, ok, throw, ◌>>=◌, ◌>>◌,
  if◌then◌else◌, guard, or_throw,
}
use logion_api.Common.Texts.{includes, join, template}
use logion_api.Hash.{Hash, equal_to}
use logion_api.License.Classification.{Element, Details, from_details, Language, en, fr}

abbrev pub values : List String
values = "BY" ∷ "BY-SA" ∷ "BY-NC" ∷ "BY-NC-SA" ∷ "BY-ND" ∷ "BY-NC-ND" ∷ []

unfoldable pub check_code : String → Result (Unit {0})
check_code details = guard (includes values details) (
    template
      ("Invalid parameters: " ∷ details ∷ ". Valid values are: " ∷ join "," values ∷ "." ∷ []))

unfoldable pub new_creative_commons : {A : Type 0} → A → String → Result (Element A String)
new_creative_commons license_loc_id parameters =
    check_code parameters >> ok (record { tc_loc_id = license_loc_id; parameters = parameters })

abbrev pub language_code : Language → String
language_code en = "en"
language_code fr = "fr"

-- `deedUrl`, with `toLowerCase` of strings
unfoldable pub deed_url : {A : Type 0} → (String → String) → Language → Element A String → String
deed_url to_lower_case language element = template (
    "https://creativecommons.org/licenses/"
    ∷ to_lower_case element.parameters
    ∷ "/4.0/deed."
    ∷ language_code language
    ∷ [])

unfoldable pub new_specific_license : {A : Type 0} → A → String → Element A String
new_specific_license license_loc_id details = record {
  tc_loc_id = license_loc_id;
  parameters = details;
}

-- class HashString: the hash of a text, and the text if it is known
pub record HashString : Type 0 where
  pub hash : Hash
  pub value : Option String

-- `Hash.of`, by a digest of 32 bytes
abbrev pub Hashing : Type 0
Hashing = String → Hash

unfoldable pub from_value : Hashing → String → HashString
from_value hashing value = record { hash = hashing value; value = some value }

unfoldable pub is_valid_value : Hashing → HashString → Bool
is_valid_value hashing text = elim text.value [
  | none ↦ false
  | some value ↦ equal_to (hashing value) text.hash
]

unfoldable pub valid_value : Hashing → HashString → Result String
valid_value hashing text =
    if is_valid_value hashing text
    then or_throw "Invalid value" text.value
    else throw "Invalid value"

-- what a terms and conditions element is
pub data Terms (A : Type 0) : Type 0 where
  logion_classification : Element A Details → Terms A
  creative_commons : Element A String → Terms A
  specific_license : Element A String → Terms A

-- class MergedTermsAndConditionsElement: from the chain, with the texts that the backend has
pub record Merged (A : Type 0) : Type 0 where
  pub tc_type : HashString
  pub tc_loc_id : A
  pub details : HashString

pub record OnchainElement (A : Type 0) : Type 0 where
  pub tc_type : Hash
  pub tc_loc_id : A
  pub details : Hash

pub record OffchainElement : Type 0 where
  pub tc_type : Option String
  pub details : Option String

abbrev pub type_error : {A : Type 0} → Result A
type_error = throw "TypeError: Cannot read properties of undefined"

-- `toTermsAndConditionsElement`
unfoldable pub element_of :
    {A : Type 0}
    → (String → Result Details)
    → (String → Bool)
    → A
    → String
    → String
    → Result (Terms A)
element_of parse is_iso_date license_loc_id type details =
    if type == "logion_classification"
    then (do
      element ← from_details parse is_iso_date license_loc_id details false
      ok (logion_classification element))
    else if type == "CC4.0"
    then (do element ← new_creative_commons license_loc_id details; ok (creative_commons element))
    else ok (specific_license (new_specific_license license_loc_id details))

module _ {A : Type 0} where
  -- `newTermsAndConditions`: the loop over the elements of the chain
  unfoldable pub new_terms_and_conditions :
      List (OnchainElement A) → List OffchainElement → Result (List (Merged A))
  new_terms_and_conditions [] offchain = ok []
  new_terms_and_conditions (onchain ∷ onchains) [] = type_error
  new_terms_and_conditions (onchain ∷ onchains) (offchain ∷ offchains) = do
    rest ← new_terms_and_conditions onchains offchains
    ok (
        record {
          tc_type = record { hash = onchain.tc_type; value = offchain.tc_type };
          tc_loc_id = onchain.tc_loc_id;
          details = record { hash = onchain.details; value = offchain.details };
        }
        ∷ rest)

  unfoldable pub to_terms_and_conditions_element :
      Hashing → (String → Result Details) → (String → Bool) → Merged A → Result (Terms A)
  to_terms_and_conditions_element hashing parse is_iso_date merged = do
    type ← valid_value hashing merged.tc_type
    details ← valid_value hashing merged.details
    element_of parse is_iso_date merged.tc_loc_id type details
