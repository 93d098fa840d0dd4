-- ===== src/License/Validity.antt =====
-- `checkValidity` of packages/client/src/license/LogionClassification.ts enforces the rules.
use logion_api.Common.{
  ◌≡◌, refl, ◌↔◌, ◌⊎◌, String, Bool, true, false, [], ◌∷◌, Result, ok, throw, ◌>>◌, if◌then◌else◌,
}
use logion_api.Common.Texts.{includes}
use logion_api.License.Validator.{Parameters, valid_or_throw}
use logion_api.License.Checks.{valid_or_throw-ok, wrong_date}
use logion_api.License.Classification.{checked, checked_commercial, is_commercial, check_validity}
use logion_api.License.Rules.{
  Has, ExactlyOne, IsValid, known_iff, exclusive_iff, one_iff, or_iff, present_iff, countries_iff,
  date_iff,
}
use logion_api.License.Steps.{Tests, checked-errors, commercial-errors}

>>-ok :
    {m : Result (Unit {0})} {k : Result (Unit {0})}
    → ((m >> k) ≡ ok tt) ↔ ((m ≡ ok tt) × (k ≡ ok tt))
>>-ok {m = ok t} {k} = (λ h. (refl, h), λ (first, second). second)
>>-ok {m = throw message} {k} = (λ h. cc, λ (first, second). cc)

if_ok :
    (test : Bool) (m : Result (Unit {0}))
    → ((if test then m else ok tt) ≡ ok tt) ↔ (test ≡ true → m ≡ ok tt)
if_ok true m = (λ h e. h, λ h. h refl)
if_ok false m = (λ h e. cc, λ h. refl)

is_commercial_iff :
    (p : Parameters) → (is_commercial p ≡ true) ↔ (Has p "COM-NOMOD" ⊎ Has p "COM-MOD")
unfolding is_commercial
is_commercial_iff p =
    or_iff (includes p.transferred_rights "COM-NOMOD") (includes p.transferred_rights "COM-MOD")

commercial_iff :
    (p : Parameters)
    → ((if is_commercial p
          then valid_or_throw "When using COM-NOMOD or COM-MOD: " (checked_commercial p)
          else ok tt)
        ≡ ok tt)
      ↔ (Has p "COM-NOMOD" ⊎ Has p "COM-MOD"
          → ExactlyOne p ("REG" ∷ "WW" ∷ []) × ExactlyOne p ("TIME" ∷ "NOTIME" ∷ []))
commercial_iff p =
    let thrown =
      if_ok (is_commercial p)
        (valid_or_throw "When using COM-NOMOD or COM-MOD: " (checked_commercial p)) in
    let errors = valid_or_throw-ok "When using COM-NOMOD or COM-MOD: " (checked_commercial p) in
    (
      λ h c.
          let (region, duration) =
            (commercial-errors p).0 (errors.0 (thrown.0 h ((is_commercial_iff p).1 c))) in
          ((one_iff _).0 region, (one_iff _).0 duration),
      λ h. thrown.1 (λ e.
          let (region, duration) = h ((is_commercial_iff p).0 e) in
          errors.1 ((commercial-errors p).1 ((one_iff _).1 region, (one_iff _).1 duration))),
    )

IsValid-Tests :
    (is_iso_date : String → Bool) (p : Parameters)
    → IsValid is_iso_date p
    → Tests p × (wrong_date is_iso_date p.expiration ≡ false)
IsValid-Tests is_iso_date p v = (
  (
    (
      (
        (
          (
            (((known_iff _ _).1 v.codes, (countries_iff _).1 v.countries), (one_iff _).1 v.usage),
            (exclusive_iff _ _).1 v.exclusivity,
          ),
          (exclusive_iff _ _).1 v.region,
        ),
        (exclusive_iff _ _).1 v.duration,
      ),
      (present_iff _ _).1 v.expires,
    ),
    (present_iff _ _).1 v.limited,
  ),
  (date_iff _ _).1 v.date,
)

-- checkValidity accepts exactly the parameters that follow the rules of the classification: known
-- codes and countries (a single empty one passes), one usage right, exclusive rights, TIME and REG
-- exactly with an expiration and a regional limit, a valid date, and for a commercial usage one
-- right on the region and one on the duration.
pub check_validity-IsValid :
    (is_iso_date : String → Bool) (p : Parameters)
    → (check_validity is_iso_date p ≡ ok tt) ↔ IsValid is_iso_date p
unfolding check_validity
check_validity-IsValid is_iso_date p = (
  λ h.
      let (first, second) = >>-ok.0 h in
      let (tests, dated) =
        (checked-errors is_iso_date p).0 ((valid_or_throw-ok "" (checked is_iso_date p)).0 first) in
      let (((((((codes, countries), usage), exclusivity), region), duration), expires), limited) =
        tests in
      record {
        codes = (known_iff _ _).0 codes;
        countries = (countries_iff _).0 countries;
        usage = (one_iff _).0 usage;
        exclusivity = (exclusive_iff _ _).0 exclusivity;
        region = (exclusive_iff _ _).0 region;
        duration = (exclusive_iff _ _).0 duration;
        expires = (present_iff _ _).0 expires;
        limited = (present_iff _ _).0 limited;
        date = (date_iff _ _).0 dated;
        commercial = (commercial_iff p).0 second;
      },
  λ v. >>-ok.1 (
    (valid_or_throw-ok "" (checked is_iso_date p)).1
        ((checked-errors is_iso_date p).1 (IsValid-Tests is_iso_date p v)),
    (commercial_iff p).1 v.commercial,
  ),
)
