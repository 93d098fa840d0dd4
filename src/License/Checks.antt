-- ===== src/License/Checks.antt =====
-- What the steps of the validator check, packages/client/src/license/LogionClassification.ts.
use logion_api.Common.{
  ℕ, ◌≡◌, refl, sym, ◌∙◌, subst, ◌↔◌, ◌≢◌, String, Bool, true, false, not, ◌&&◌, Option, none, some,
  List, [], ◌∷◌, ◌++◌, length, ok, ltb,
}
use logion_api.Common.Texts.{includes, join, is_empty, keep}
use logion_api.Country.{iso_3166_alpha_2_mappings}
use logion_api.License.Items.{logion_license_items}
use logion_api.License.Validator.{
  Parameters, Validator, report, is_unknown, mutually_exclusive, code_present_for_condition,
  valid_iso_date, contains, all_codes_valid, all_country_codes_valid, valid_or_throw, throw_errors,
  country_codes_valid,
}

-- A step of a validator that finds no more errors exactly where the parameters meet a condition.
pub record Checks (step : Validator → Validator) (Condition : Parameters → Type 0) : Type 0 where
  pub kept : (v : Validator) → (step v).parameters ≡ v.parameters
  pub found : (v : Validator) → (step v).errors ≡ [] → Condition v.parameters × (v.errors ≡ [])
  pub passed : (v : Validator) → Condition v.parameters → v.errors ≡ [] → (step v).errors ≡ []

append-ne-nil : {A : Type 0} (xs : List A) (x : A) → xs ++ x ∷ [] ≢ []
append-ne-nil [] x = cc
append-ne-nil (y ∷ xs) x = cc

report-kept :
    (test : Bool) (message : String) (v : Validator)
    → (report test message v).parameters ≡ v.parameters
unfolding report
report-kept true message v = refl
report-kept false message v = refl

report-found :
    (test : Bool) (message : String) (v : Validator)
    → (report test message v).errors ≡ []
    → (test ≡ false) × (v.errors ≡ [])
unfolding report
report-found true message v h = absurd (append-ne-nil v.errors message h)
report-found false message v h = (refl, h)

report-passed :
    (test : Bool) (message : String) (v : Validator)
    → test ≡ false
    → v.errors ≡ []
    → (report test message v).errors ≡ []
unfolding report
report-passed test message v e h = rw e h

-- A test of the parameters.
report-Checks :
    (test : Parameters → Bool) (message : Parameters → String)
    → Checks (λ v. report (test v.parameters) (message v.parameters) v) (λ p. test p ≡ false)
report-Checks test message = record {
  kept = λ v. report-kept (test v.parameters) (message v.parameters) v;
  found = λ v. report-found (test v.parameters) (message v.parameters) v;
  passed = λ v. report-passed (test v.parameters) (message v.parameters) v;
}

-- Two tests, one after the other, of the same parameters.
reports-Checks :
    (test1 test2 : Parameters → Bool) (message1 message2 : String)
    → Checks
        (λ v. report (test2 v.parameters) message2 (report (test1 v.parameters) message1 v))
        (λ p. (test1 p ≡ false) × (test2 p ≡ false))
reports-Checks test1 test2 message1 message2 = record {
  kept = λ v.
      report-kept (test2 v.parameters) message2 (report (test1 v.parameters) message1 v)
      ∙ report-kept (test1 v.parameters) message1 v;
  found = λ v h.
      let (second, rest) =
        report-found (test2 v.parameters) message2 (report (test1 v.parameters) message1 v) h in
      let (first, none_before) = report-found (test1 v.parameters) message1 v rest in
      ((first, second), none_before);
  passed = λ v conditions h.
      report-passed (test2 v.parameters) message2 (report (test1 v.parameters) message1 v)
        (conditions.1) (report-passed (test1 v.parameters) message1 v (conditions.0) h);
}

pub Checks-comp :
    {f g : Validator → Validator} {C D : Parameters → Type 0}
    → Checks f C
    → Checks g D
    → Checks (λ v. g (f v)) (λ p. C p × D p)
Checks-comp {f} {g} {C} {D} c d = record {
  kept = λ v. d.kept (f v) ∙ c.kept v;
  found = λ v h.
      let (second, rest) = d.found (f v) h in
      let (first, none_before) = c.found v rest in
      ((first, subst D (c.kept v) second), none_before);
  passed = λ v conditions h.
      d.passed (f v) (subst D (sym (c.kept v)) (conditions.1)) (c.passed v (conditions.0) h);
}

pub exclusive-Checks :
    (a b : String)
    → Checks
        (mutually_exclusive a b)
        (λ p. (includes p.transferred_rights a && includes p.transferred_rights b) ≡ false)
unfolding mutually_exclusive
exclusive-Checks a b =
    report-Checks (λ p. includes p.transferred_rights a && includes p.transferred_rights b) (λ p. _)

abbrev pub count : Parameters → List String → ℕ
count p subset = length (keep (includes p.transferred_rights) subset)

pub contains-Checks :
    (subset : List String)
    → Checks
        (contains 1 1 subset)
        (λ p. (ltb (count p subset) 1 ≡ false) × (ltb 1 (count p subset) ≡ false))
unfolding contains
contains-Checks subset =
    reports-Checks (λ p. ltb (count p subset) 1) (λ p. ltb 1 (count p subset)) _ _

pub present-Checks :
    (code : String) (condition : Parameters → Bool) (message : String)
    → Checks (code_present_for_condition code condition message) (λ p.
      ((not (includes p.transferred_rights code) && condition p) ≡ false)
      × ((includes p.transferred_rights code && not (condition p)) ≡ false))
unfolding code_present_for_condition
present-Checks code condition message =
    Checks-comp
      (report-Checks (λ p. not (includes p.transferred_rights code) && condition p) (λ p. message))
      (report-Checks (λ p. includes p.transferred_rights code && not (condition p)) (λ p. message))

pub codes-Checks : Checks all_codes_valid (λ p.
    not (is_empty (join "," (keep (is_unknown logion_license_items) p.transferred_rights))) ≡ false)
unfolding all_codes_valid
codes-Checks =
    report-Checks
      (λ p. not (is_empty (join "," (keep (is_unknown logion_license_items) p.transferred_rights))))
      (λ p. _)

abbrev pub unknown_countries : Option (List String) → Bool
unknown_countries none = false
unknown_countries (some limit) =
    not (is_empty (join "," (keep (is_unknown iso_3166_alpha_2_mappings) limit)))

countries-kept :
    (limit : Option (List String)) (v : Validator)
    → (country_codes_valid limit v).parameters ≡ v.parameters
unfolding country_codes_valid
countries-kept none v = refl
countries-kept (some limit) v = report-kept _ _ v

countries-found :
    (limit : Option (List String)) (v : Validator)
    → (country_codes_valid limit v).errors ≡ []
    → (unknown_countries limit ≡ false) × (v.errors ≡ [])
unfolding country_codes_valid
countries-found none v h = (refl, h)
countries-found (some limit) v h = report-found _ _ v h

countries-passed :
    (limit : Option (List String)) (v : Validator)
    → unknown_countries limit ≡ false
    → v.errors ≡ []
    → (country_codes_valid limit v).errors ≡ []
unfolding country_codes_valid
countries-passed none v e h = h
countries-passed (some limit) v e h = report-passed _ _ v e h

pub countries-Checks :
    Checks all_country_codes_valid (λ p. unknown_countries p.regional_limit ≡ false)
unfolding all_country_codes_valid
countries-Checks = record {
  kept = λ v. countries-kept v.parameters.regional_limit v;
  found = λ v. countries-found v.parameters.regional_limit v;
  passed = λ v. countries-passed v.parameters.regional_limit v;
}

abbrev pub wrong_date : (String → Bool) → Option String → Bool
wrong_date is_iso_date none = false
wrong_date is_iso_date (some date) = not (is_empty date) && not (is_iso_date date)

pub date-found :
    (is_iso_date : String → Bool) (date : Option String) (v : Validator)
    → (valid_iso_date is_iso_date date v).errors ≡ []
    → (wrong_date is_iso_date date ≡ false) × (v.errors ≡ [])
unfolding valid_iso_date
date-found is_iso_date none v h = (refl, h)
date-found is_iso_date (some date) v h = report-found _ _ v h

pub date-passed :
    (is_iso_date : String → Bool) (date : Option String) (v : Validator)
    → wrong_date is_iso_date date ≡ false
    → v.errors ≡ []
    → (valid_iso_date is_iso_date date v).errors ≡ []
unfolding valid_iso_date
date-passed is_iso_date none v e h = h
date-passed is_iso_date (some date) v e h = report-passed _ _ v e h

throw_errors-ok :
    (prefix : String) (errors : List String) → (throw_errors prefix errors ≡ ok tt) ↔ (errors ≡ [])
unfolding throw_errors
throw_errors-ok prefix [] = (λ h. refl, λ h. refl)
throw_errors-ok prefix (message ∷ rest) = (λ h. cc, λ h. cc)

-- A validator throws exactly where it has found errors.
pub valid_or_throw-ok :
    (prefix : String) (v : Validator) → (valid_or_throw prefix v ≡ ok tt) ↔ (v.errors ≡ [])
unfolding valid_or_throw
valid_or_throw-ok prefix v = throw_errors-ok prefix v.errors
