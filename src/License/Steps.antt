-- ===== src/License/Steps.antt =====
-- The two chains of `checkValidity`, packages/client/src/license/LogionClassification.ts.
use logion_api.Common.{◌≡◌, refl, ◌↔◌, String, Bool, false, not, ◌&&◌, List, [], ◌∷◌, ltb}
use logion_api.Common.Texts.{includes, join, is_empty, keep}
use logion_api.License.Items.{logion_license_items}
use logion_api.License.Validator.{
  Parameters, Validator, new_validator, is_unknown, contains, mutually_exclusive,
  code_present_for_condition, all_country_codes_valid, all_codes_valid,
}
use logion_api.License.Checks.{
  Checks, Checks-comp, exclusive-Checks, contains-Checks, present-Checks, codes-Checks,
  countries-Checks, date-found, date-passed, wrong_date, unknown_countries, count,
}
use logion_api.License.Classification.{
  expiration_set, regional_limit_set, checked, checked_commercial,
}

-- the chain of `checkValidity` without the last step
steps : Validator → Validator
steps v =
    code_present_for_condition "REG" regional_limit_set
      "Transferred right REG must be set if and only if a regional limit is set"
      (code_present_for_condition "TIME" expiration_set
        "Transferred right TIME must be set if and only if expiration is set"
        (mutually_exclusive "TIME" "NOTIME" (
          mutually_exclusive "REG" "WW" (
            mutually_exclusive "EX" "NOEX" (
              contains 1 1 ("PER-PRIV" ∷ "PER-PUB" ∷ "COM-NOMOD" ∷ "COM-MOD" ∷ [])
                (all_country_codes_valid (all_codes_valid v)))))))

-- the last four steps of it and what they check
abbrev pub Exclusive : Parameters → String → String → Type 0
Exclusive p a b = (includes p.transferred_rights a && includes p.transferred_rights b) ≡ false

abbrev pub One : Parameters → List String → Type 0
One p subset = (ltb (count p subset) 1 ≡ false) × (ltb 1 (count p subset) ≡ false)

abbrev pub Together : Parameters → String → Bool → Type 0
Together p code test =
    ((not (includes p.transferred_rights code) && test) ≡ false)
    × ((includes p.transferred_rights code && not test) ≡ false)

-- what the steps find, as tests
abbrev pub Tests : Parameters → Type 0
Tests p =
    (((((((not (is_empty (join "," (keep (is_unknown logion_license_items) p.transferred_rights)))
                  ≡ false)
                × (unknown_countries p.regional_limit ≡ false))
              × One p ("PER-PRIV" ∷ "PER-PUB" ∷ "COM-NOMOD" ∷ "COM-MOD" ∷ []))
            × Exclusive p "EX" "NOEX")
          × Exclusive p "REG" "WW")
        × Exclusive p "TIME" "NOTIME")
      × Together p "TIME" (expiration_set p))
    × Together p "REG" (regional_limit_set p)

steps-Checks : Checks steps Tests
unfolding steps
steps-Checks =
    Checks-comp
      (Checks-comp
        (Checks-comp
          (Checks-comp
            (Checks-comp
              (Checks-comp (Checks-comp codes-Checks countries-Checks) (contains-Checks _))
              (exclusive-Checks "EX" "NOEX"))
            (exclusive-Checks "REG" "WW"))
          (exclusive-Checks "TIME" "NOTIME"))
        (present-Checks "TIME" expiration_set _))
      (present-Checks "REG" regional_limit_set _)

pub checked-errors :
    (is_iso_date : String → Bool) (p : Parameters)
    → ((checked is_iso_date p).errors ≡ [])
      ↔ (Tests p × (wrong_date is_iso_date p.expiration ≡ false))
unfolding checked steps
checked-errors is_iso_date p = (
  λ h.
      let (dated, rest) = date-found is_iso_date p.expiration (steps (new_validator p)) h in
      let (tests, none_before) = steps-Checks.found (new_validator p) rest in (tests, dated),
  λ (tests, dated).
      date-passed is_iso_date p.expiration (steps (new_validator p)) dated
        (steps-Checks.passed (new_validator p) tests refl),
)

pub commercial-errors :
    (p : Parameters)
    → ((checked_commercial p).errors ≡ [])
      ↔ (One p ("REG" ∷ "WW" ∷ []) × One p ("TIME" ∷ "NOTIME" ∷ []))
unfolding checked_commercial
commercial-errors p =
    let both =
      Checks-comp (contains-Checks ("REG" ∷ "WW" ∷ []))
        (contains-Checks ("TIME" ∷ "NOTIME" ∷ [])) in
    (λ h. (both.found (new_validator p) h).0, λ ones. both.passed (new_validator p) ones refl)
