-- ===== src/License/Rules.antt =====
-- The rules that the parameters of a classification follow, by the comments and messages of
-- packages/client/src/license/LogionClassification.ts, and the tests that decide them.
use logion_api.Common.{
  ℕ, ◌≡◌, refl, subst, ◌↔◌, ◌⊎◌, inl, inr, String, Bool, true, false, not, ◌&&◌, ◌||◌, Option, none,
  some, List, [], ◌∷◌, arith, ltb,
}
use mathlib.Core.Option.{some-injective}
use logion_api.Common.Texts.{includes, join, is_empty, is_empty-join, keep}
use logion_api.Country.{iso_3166_alpha_2_mappings}
use logion_api.License.Items.{logion_license_items}
use logion_api.License.Validator.{Parameters, is_unknown}
use logion_api.License.Checks.{wrong_date, unknown_countries, count}
use logion_api.License.Classification.{expiration_set, regional_limit_set}

-- No code is unknown to the dictionary, but for a single one that is the empty text.
abbrev pub Known : {A : Type 0} → List (String × A) → List String → Type 0
Known entries codes =
    let unknown = keep (is_unknown entries) codes in (unknown ≡ []) ⊎ (unknown ≡ "" ∷ [])

abbrev pub Has : Parameters → String → Type 0
Has p code = includes p.transferred_rights code ≡ true

-- Of these codes the transferred rights have one.
abbrev pub ExactlyOne : Parameters → List String → Type 0
ExactlyOne p subset = count p subset ≡ 1

pub record IsValid (is_iso_date : String → Bool) (p : Parameters) : Type 0 where
  pub codes : Known logion_license_items p.transferred_rights
  pub countries :
      (limit : List String) → p.regional_limit ≡ some limit → Known iso_3166_alpha_2_mappings limit
  pub usage : ExactlyOne p ("PER-PRIV" ∷ "PER-PUB" ∷ "COM-NOMOD" ∷ "COM-MOD" ∷ [])
  pub exclusivity : ¬ (Has p "EX" × Has p "NOEX")
  pub region : ¬ (Has p "REG" × Has p "WW")
  pub duration : ¬ (Has p "TIME" × Has p "NOTIME")
  pub expires : Has p "TIME" ↔ (expiration_set p ≡ true)
  pub limited : Has p "REG" ↔ (regional_limit_set p ≡ true)
  pub date : (d : String) → p.expiration ≡ some d → (d ≡ "") ⊎ (is_iso_date d ≡ true)
  pub commercial :
      Has p "COM-NOMOD" ⊎ Has p "COM-MOD"
      → ExactlyOne p ("REG" ∷ "WW" ∷ []) × ExactlyOne p ("TIME" ∷ "NOTIME" ∷ [])

pub known_iff :
    {A : Type 0} (entries : List (String × A)) (codes : List String)
    → (not (is_empty (join "," (keep (is_unknown entries) codes))) ≡ false) ↔ Known entries codes
known_iff entries codes =
    let unknown = keep (is_unknown entries) codes in
    (λ h. is_empty-join unknown (ground arith), λ known. elim known [ inl e ↦ rw e | inr e ↦ rw e ])

pub exclusive_iff : (a b : Bool) → ((a && b) ≡ false) ↔ (¬ ((a ≡ true) × (b ≡ true)))
exclusive_iff a b = ground arith

pub one_iff : (n : ℕ) → ((ltb n 1 ≡ false) × (ltb 1 n ≡ false)) ↔ (n ≡ 1)
one_iff n = ground arith

pub or_iff : (a b : Bool) → ((a || b) ≡ true) ↔ ((a ≡ true) ⊎ (b ≡ true))
or_iff a b = ground arith

pub present_iff :
    (a b : Bool) → (((not a && b) ≡ false) × ((a && not b) ≡ false)) ↔ ((a ≡ true) ↔ (b ≡ true))
present_iff a b = ground arith

pub countries_iff :
    (limit : Option (List String))
    → (unknown_countries limit ≡ false)
      ↔ ((l : List String) → limit ≡ some l → Known iso_3166_alpha_2_mappings l)
countries_iff none = (λ h l e. cc, λ h. refl)
countries_iff (some limit) = (
  λ h l e.
      subst (λ (m : List String). Known iso_3166_alpha_2_mappings m) (some-injective _ _ e)
        ((known_iff iso_3166_alpha_2_mappings limit).0 h),
  λ h. (known_iff iso_3166_alpha_2_mappings limit).1 (h limit refl),
)

date_or_empty :
    (date : String) (valid : Bool)
    → (not (is_empty date) && not valid) ≡ false
    → (date ≡ "") ⊎ (valid ≡ true)
date_or_empty String.[] valid h = inl refl
date_or_empty (String.◌∷◌ c date) valid h = inr (ground arith)

pub date_iff :
    (is_iso_date : String → Bool) (date : Option String)
    → (wrong_date is_iso_date date ≡ false)
      ↔ ((d : String) → date ≡ some d → (d ≡ "") ⊎ (is_iso_date d ≡ true))
date_iff is_iso_date none = (λ h d e. cc, λ h. refl)
date_iff is_iso_date (some date) = (
  λ h d e.
      subst (λ (c : String). (c ≡ "") ⊎ (is_iso_date c ≡ true)) (some-injective _ _ e)
        (date_or_empty date (is_iso_date date) h),
  λ h. elim (h date refl) [ inl e ↦ rw e | inr e ↦ rw e (ground arith) ],
)
