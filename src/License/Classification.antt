-- ===== src/License/Classification.antt =====
-- class LogionClassification of packages/client/src/license/LogionClassification.ts. The date check
-- of luxon, `DateTime.fromISO(date).isValid`, is the parameter `is_iso_date`.
use logion_api.Common.{
  String, Bool, true, false, not, ◌||◌, Option, none, some, List, [], ◌∷◌, Result, ok, throw, ◌>>=◌,
  ◌>>◌, if◌then◌else◌, guard, ◌&&◌,
}
use logion_api.Common.Texts.{is_empty, property, includes}
use logion_api.License.Items.{Description, logion_license_items}
use logion_api.License.Validator.{
  Parameters, Validator, new_validator, mutually_exclusive, code_present_for_condition,
  valid_iso_date, contains, all_codes_valid, all_country_codes_valid, valid_or_throw, inherited,
}

unfoldable pub expiration_set : Parameters → Bool
expiration_set params = elim params.expiration [ none ↦ false | some date ↦ not (is_empty date) ]

unfoldable pub regional_limit_set : Parameters → Bool
regional_limit_set params = elim params.regional_limit [
  | none ↦ false
  | some [] ↦ false
  | some (code ∷ limit) ↦ true
]

-- the first chain of `checkValidity`
unfoldable pub checked : (String → Bool) → Parameters → Validator
checked is_iso_date parameters =
    let codes = all_country_codes_valid (all_codes_valid (new_validator parameters)) in
    let usage = contains 1 1 ("PER-PRIV" ∷ "PER-PUB" ∷ "COM-NOMOD" ∷ "COM-MOD" ∷ []) codes in
    let exclusive =
      mutually_exclusive "TIME" "NOTIME"
        (mutually_exclusive "REG" "WW" (mutually_exclusive "EX" "NOEX" usage)) in
    let timed =
      code_present_for_condition "TIME" expiration_set
        "Transferred right TIME must be set if and only if expiration is set" exclusive in
    let limited =
      code_present_for_condition "REG" regional_limit_set
        "Transferred right REG must be set if and only if a regional limit is set" timed in
    valid_iso_date is_iso_date parameters.expiration limited

-- the second one
unfoldable pub checked_commercial : Parameters → Validator
checked_commercial parameters =
    contains 1 1 ("TIME" ∷ "NOTIME" ∷ [])
      (contains 1 1 ("REG" ∷ "WW" ∷ []) (new_validator parameters))

unfoldable pub is_commercial : Parameters → Bool
is_commercial parameters =
    includes parameters.transferred_rights "COM-NOMOD"
    || includes parameters.transferred_rights "COM-MOD"

unfoldable pub check_validity : (String → Bool) → Parameters → Result (Unit {0})
check_validity is_iso_date parameters =
    valid_or_throw "" (checked is_iso_date parameters)
    >> (if is_commercial parameters
        then valid_or_throw "When using COM-NOMOD or COM-MOD: " (checked_commercial parameters)
        else ok tt)

-- What `JSON.parse` reads from the details: the transferred rights may be missing.
pub record Details : Type 0 where
  pub rights : Option (List String)
  pub limit : Option (List String)
  pub expiry : Option String

abbrev pub to_details : Parameters → Details
to_details parameters = record {
  rights = some parameters.transferred_rights;
  limit = parameters.regional_limit;
  expiry = parameters.expiration;
}

abbrev pub undefined_rights : {A : Type 0} → Result A
undefined_rights = throw "TypeError: Cannot read properties of undefined"

-- `checkValidity` of parameters whose rights may be `undefined`
unfoldable pub check_details : (String → Bool) → Details → Result (Unit {0})
check_details is_iso_date details = elim details.rights [
  | none ↦ undefined_rights
  | some transferred_rights ↦ check_validity is_iso_date (record {
    transferred_rights = transferred_rights;
    regional_limit = details.limit;
    expiration = details.expiry;
  })
]

-- an element of the terms and conditions: its LOC and its parameters
pub record Element (A : Type 0) (P : Type 0) : Type 0 where
  pub tc_loc_id : A
  pub parameters : P

-- the constructor; the identifiers of LOCs are of any type
unfoldable pub new_classification :
    {A : Type 0} → (String → Bool) → A → Details → Bool → Result (Element A Details)
new_classification is_iso_date license_loc_id parameters validity =
    (if validity then check_details is_iso_date parameters else ok tt)
    >> ok (record { tc_loc_id = license_loc_id; parameters = parameters })

-- `get details()`, by `JSON.stringify`
unfoldable pub details_of : {A : Type 0} → (Details → String) → Element A Details → String
details_of stringify element = stringify element.parameters

abbrev pub is_undefined : {A : Type 0} → Option A → Bool
is_undefined none = true
is_undefined (some a) = false

-- `fromDetails`, with `JSON.parse`
unfoldable pub from_details :
    {A : Type 0}
    → (String → Result Details)
    → (String → Bool)
    → A
    → String
    → Bool
    → Result (Element A Details)
from_details parse is_iso_date license_loc_id details validity = do
  parameters ← parse details
  guard (not (validity && is_undefined parameters.rights))
      "Details do not contain a valid JSON. Expecting something like { \"transferredRights\": [\"PER-PUB\"] }"
  new_classification is_iso_date license_loc_id parameters validity

unfoldable pub validate_details :
    (String → Result Details) → (String → Bool) → String → Result (Unit {0})
validate_details parse is_iso_date details = do
  parameters ← parse details
  check_details is_iso_date parameters

pub data Language : Type 0 where
  en fr : Language

-- `logionLicenseItems[code][lang]`: a member that every object inherits has no languages
unfoldable pub description_of : Language → String → Result (Option Description)
description_of lang code = elim (property logion_license_items code) [
  | none ↦
      if includes inherited code
      then ok none
      else throw "TypeError: Cannot read properties of undefined"
  | some translations ↦ elim lang [
    | en ↦ ok (some translations.en)
    | fr ↦ ok (some translations.fr)
  ]
]

unfoldable pub rights_of : Language → List String → Result (List (Option Description × String))
rights_of lang [] = ok []
rights_of lang (code ∷ codes) = do
  description ← description_of lang code
  rest ← rights_of lang codes
  ok ((description, code) ∷ rest)

unfoldable pub transferred_rights :
    {A : Type 0} → Language → Element A Details → Result (List (Option Description × String))
transferred_rights lang element = elim element.parameters.rights [
  | none ↦ undefined_rights
  | some codes ↦ rights_of lang codes
]
