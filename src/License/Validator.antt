-- ===== src/License/Validator.antt =====
-- class Validator of packages/client/src/license/LogionClassification.ts: each method pushes its
-- complaints on the errors found so far.
use logion_api.Common.{
  ℕ, String, Bool, not, ◌&&◌, Option, none, some, List, [], ◌∷◌, ◌++◌, length, ltb, Result, ok,
  throw, if◌then◌else◌,
}
use logion_api.Common.Texts.{includes, join, is_empty, keep, property, show, template}
use logion_api.Country.{iso_3166_alpha_2_mappings}
use logion_api.License.Items.{logion_license_items}

-- interface LogionClassificationParameters
pub record Parameters : Type 0 where
  pub transferred_rights : List String
  pub regional_limit : Option (List String)
  pub expiration : Option String

pub record Validator : Type 0 where
  pub parameters : Parameters
  pub errors : List String

abbrev pub new_validator : Parameters → Validator
new_validator parameters = record { parameters = parameters; errors = [] }

-- `if(test) { this.errors.push(message); }`
unfoldable pub report : Bool → String → Validator → Validator
report test message v = if test then record v { errors = v.errors ++ message ∷ [] } else v

-- the members that every JavaScript object inherits: they are not `undefined` in a dictionary
abbrev pub inherited : List String
inherited =
    "constructor" ∷ "hasOwnProperty" ∷ "isPrototypeOf" ∷ "propertyIsEnumerable" ∷ "toLocaleString"
    ∷ "toString" ∷ "valueOf" ∷ "__proto__" ∷ "__defineGetter__" ∷ "__defineSetter__"
    ∷ "__lookupGetter__" ∷ "__lookupSetter__" ∷ []

-- `entries[key] === undefined`
unfoldable pub is_unknown : {A : Type 0} → List (String × A) → String → Bool
is_unknown entries key = elim (property entries key) [
  | some a ↦ Bool.false
  | none ↦ not (includes inherited key)
]

abbrev pub has : Validator → String → Bool
has v code = includes v.parameters.transferred_rights code

unfoldable pub mutually_exclusive : String → String → Validator → Validator
mutually_exclusive code1 code2 v =
    report (has v code1 && has v code2)
      (template ("Transferred rights are mutually exclusive: " ∷ code1 ∷ " and " ∷ code2 ∷ [])) v

unfoldable pub code_present_for_condition :
    String → (Parameters → Bool) → String → Validator → Validator
code_present_for_condition code condition message v =
    let v' = report (not (has v code) && condition v.parameters) message v in
    report (has v' code && not (condition v'.parameters)) message v'

-- `DateTime.fromISO(date).isValid` of luxon is the first argument.
unfoldable pub valid_iso_date : (String → Bool) → Option String → Validator → Validator
valid_iso_date is_iso_date none v = v
valid_iso_date is_iso_date (some date) v =
    report (not (is_empty date) && not (is_iso_date date)) "Invalid date" v

unfoldable pub contains : ℕ → ℕ → List String → Validator → Validator
contains min max subset v =
    let num = length (keep (has v) subset) in
    let v' =
      report (ltb num min)
        (template (
          "Transferred rights must contain at least "
          ∷ show min
          ∷ " code(s) from "
          ∷ join "," subset
          ∷ []))
        v in
    report (ltb max num)
      (template (
        "Transferred rights must contain at most "
        ∷ show max
        ∷ " code(s) from "
        ∷ join "," subset
        ∷ []))
      v'

unfoldable pub all_codes_valid : Validator → Validator
all_codes_valid v =
    let unknown_codes =
      join "," (keep (is_unknown logion_license_items) v.parameters.transferred_rights) in
    report (not (is_empty unknown_codes)) (template ("Unknown code(s): " ∷ unknown_codes ∷ [])) v

unfoldable pub country_codes_valid : Option (List String) → Validator → Validator
country_codes_valid none v = v
country_codes_valid (some limit) v =
    let unknown_codes = join "," (keep (is_unknown iso_3166_alpha_2_mappings) limit) in
    report (not (is_empty unknown_codes))
      (template ("Unknown Country code(s): " ∷ unknown_codes ∷ [])) v

unfoldable pub all_country_codes_valid : Validator → Validator
all_country_codes_valid v = country_codes_valid v.parameters.regional_limit v

unfoldable pub throw_errors : String → List String → Result (Unit {0})
throw_errors prefix [] = ok tt
throw_errors prefix (message ∷ rest) = throw (template (prefix ∷ join "; " (message ∷ rest) ∷ []))

unfoldable pub valid_or_throw : String → Validator → Result (Unit {0})
valid_or_throw prefix v = throw_errors prefix v.errors
