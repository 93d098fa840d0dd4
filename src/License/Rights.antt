-- ===== src/License/Rights.antt =====
-- The descriptions and the details of a classification,
-- packages/client/src/license/LogionClassification.ts.
use logion_api.Common.{◌≡◌, refl, String, Bool, true, Option, some, List, [], ◌∷◌, Result, ok}
use logion_api.Common.Texts.{property}
use logion_api.License.Items.{Description, Translations, logion_license_items}
use logion_api.License.Validator.{Parameters}
use logion_api.License.Rules.{IsValid}
use logion_api.License.Validity.{check_validity-IsValid}
use logion_api.License.Classification.{
  Language, en, fr, Element, Details, to_details, check_details, new_classification, details_of,
  from_details, description_of, rights_of, transferred_rights,
}

-- the description of a code in a language, where the dictionary has the code
abbrev pub translated : Language → Translations → Description
translated en item = item.en
translated fr item = item.fr

-- The dictionary has every code of the list.
unfoldable pub AllListed : List String → Type 0
AllListed [] = Unit
AllListed (code ∷ codes) =
    ((item : Translations) × (property logion_license_items code ≡ some item)) × AllListed codes

abbrev pub descriptions :
    Language → (codes : List String) → AllListed codes → List (Option Description × String)
unfolding AllListed
descriptions lang [] listed = []
descriptions lang (code ∷ codes) ((item, e), listed) =
    (some (translated lang item), code) ∷ descriptions lang codes listed

description_of-listed :
    (lang : Language) (code : String) {item : Translations}
    → property logion_license_items code ≡ some item
    → description_of lang code ≡ ok (some (translated lang item))
unfolding description_of
description_of-listed en code e = rw (e, description_of)
description_of-listed fr code e = rw (e, description_of)

rights_of-listed :
    (lang : Language) (codes : List String) (listed : AllListed codes)
    → rights_of lang codes ≡ ok (descriptions lang codes listed)
unfolding rights_of AllListed
rights_of-listed lang [] listed = refl
rights_of-listed lang (code ∷ codes) ((item, e), listed) =
    rw (description_of-listed lang code e, rights_of-listed lang codes listed)

module _ {A : Type 0} (is_iso_date : String → Bool) (license_loc_id : A) where
  new_classification-ok :
      (p : Parameters)
      → IsValid is_iso_date p
      → new_classification is_iso_date license_loc_id (to_details p) true
        ≡ ok (record { tc_loc_id = license_loc_id; parameters = to_details p })
  unfolding new_classification check_details
  new_classification-ok p v = rw ((check_validity-IsValid is_iso_date p).1 v)

  -- A valid classification, written as its details and read back and checked, is the same; and it
  -- has a description in both languages of each of its rights, in their order, where the dictionary
  -- has them.
  pub from_details-details_of :
      (parse : String → Result Details) (stringify : Details → String) (p : Parameters)
      → parse (stringify (to_details p)) ≡ ok (to_details p)
      → IsValid is_iso_date p
      → (listed : AllListed p.transferred_rights)
      → (element : Element A Details) × (new_classification is_iso_date license_loc_id
            (to_details p)
            true
          ≡ ok element)
        × (from_details parse is_iso_date license_loc_id (details_of stringify element) true
            ≡ ok element)
        × ((lang : Language)
            → transferred_rights lang element ≡ ok (descriptions lang p.transferred_rights listed))
  unfolding from_details details_of transferred_rights
  from_details-details_of parse stringify p round v listed = (
    record { tc_loc_id = license_loc_id; parameters = to_details p },
    new_classification-ok p v,
    rw round (new_classification-ok p v),
    λ lang. rights_of-listed lang p.transferred_rights listed,
  )
