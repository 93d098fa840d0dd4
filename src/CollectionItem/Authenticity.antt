-- ===== src/CollectionItem/Authenticity.antt =====
-- Where the terms and conditions of a collection item come from,
-- packages/client/src/CollectionItem.ts.
use logion_api.Common.{
  In, ◌≡◌, refl, sym, ap, subst, ◌∙◌, inl, inr, String, Bool, true, false, Option, none, some, List,
  [], ◌∷◌, Result, ok, throw, if◌then◌else◌, >>=-eq-ok, ok-inj, Bool-cases,
}
use mathlib.Core.Option.{some-injective}
use logion_api.Common.Texts.{keep}
use logion_api.Hash.{Hash, equal_to}
use logion_api.License.Classification.{Element, Details}
use logion_api.License.Elements.{
  Hashing, Terms, logion_classification, creative_commons, specific_license, Merged, is_valid_value,
  valid_value, to_terms_and_conditions_element, element_of,
}
use logion_api.CollectionItem.{
  CollectionItem, is_valid_element, to_elements, valid_terms_and_conditions, classifications,
  all_commons, specific_licenses, first_one, new_collection_item,
}

In-keep : {A : Type 0} (test : A → Bool) (x : A) (xs : List A) → In x (keep test xs) → In x xs
In-keep test x [] h = h
In-keep test x (y ∷ xs) h = elim (Bool-cases (test y)) [
  | inl e ↦ elim (subst (λ (b : Bool). In x (if b then y ∷ keep test xs else keep test xs)) e h) [
    | inl same ↦ inl same
    | inr later ↦ inr (In-keep test x xs later)
  ]
  | inr e ↦ inr (
      In-keep test x xs
        (subst (λ (b : Bool). In x (if b then y ∷ keep test xs else keep test xs)) e h))
]

valid_text :
    (test : Bool) (value : String) {text : String}
    → (if test then ok value else throw "Invalid value") ≡ ok text
    → (test ≡ true) × (value ≡ text)
valid_text true value h = (refl, ok-inj h)
valid_text false value h = cc

module _ (hashing : Hashing) where
  -- A valid value has the hash of the chain.
  pub valid_value-hash :
      (hash : Hash) (value : Option String) {text : String}
      → valid_value hashing (record { hash = hash; value = value }) ≡ ok text
      → equal_to (hashing text) hash ≡ true
  unfolding valid_value is_valid_value
  valid_value-hash hash none h = cc
  valid_value-hash hash (some value) h =
      let (e, same) = valid_text (equal_to (hashing value) hash) value h in
      subst (λ (t : String). equal_to (hashing t) hash ≡ true) same e

module _ {A : Type 0} (hashing : Hashing) (parse : String → Result Details)
    (is_iso_date : String → Bool) where
  -- The texts of a type and of details, whose hashes the chain has, make this element.
  pub record Authentic (terms : List (Merged A)) (element : Terms A) : Type 0 where
    pub merged : Merged A
    pub listed : In merged terms
    pub type : String
    pub details : String
    pub type_hash : equal_to (hashing type) merged.tc_type.hash ≡ true
    pub details_hash : equal_to (hashing details) merged.details.hash ≡ true
    pub made : element_of parse is_iso_date merged.tc_loc_id type details ≡ ok element

  element-Authentic :
      (m : Merged A) (terms : List (Merged A)) (element : Terms A)
      → In m terms
      → to_terms_and_conditions_element hashing parse is_iso_date m ≡ ok element
      → Authentic terms element
  unfolding to_terms_and_conditions_element
  element-Authentic m terms element listed h =
      let (type, first, h') = >>=-eq-ok (valid_value hashing m.tc_type) _ h in
      let (details, second, made) = >>=-eq-ok (valid_value hashing m.details) _ h' in
      record {
        merged = m;
        listed = listed;
        type = type;
        details = details;
        type_hash = valid_value-hash hashing m.tc_type.hash m.tc_type.value first;
        details_hash = valid_value-hash hashing m.details.hash m.details.value second;
        made = made;
      }

  elements-Authentic :
      (ms terms : List (Merged A)) (elements : List (Terms A)) (element : Terms A)
      → ((m : Merged A) → In m ms → In m terms)
      → to_elements hashing parse is_iso_date ms ≡ ok elements
      → In element elements
      → Authentic terms element
  unfolding to_elements
  elements-Authentic [] terms elements element sub h found =
      absurd (subst (In element) (ok-inj (sym h)) found)
  elements-Authentic (m ∷ ms) terms elements element sub h found =
      let (first, made, h') =
        >>=-eq-ok (to_terms_and_conditions_element hashing parse is_iso_date m) _ h in
      let (rest, made_rest, last) = >>=-eq-ok (to_elements hashing parse is_iso_date ms) _ h' in
      elim (subst (In element) (ok-inj (sym last)) found) [
        | inl same ↦ element-Authentic m terms element (sub m (inl refl)) (made ∙ ap ok (sym same))
        | inr later ↦
            elements-Authentic ms terms rest element (λ n there. sub n (inr there)) made_rest later
      ]

module _ {A : Type 0} where
  In-classifications :
      (e : Element A Details) (terms : List (Terms A))
      → In e (classifications terms)
      → In (logion_classification e) terms
  unfolding classifications
  In-classifications e [] h = elim h [ ]
  In-classifications e (logion_classification e' ∷ terms) (inl same) =
      inl (ap logion_classification same)
  In-classifications e (logion_classification e' ∷ terms) (inr later) =
      inr (In-classifications e terms later)
  In-classifications e (creative_commons e' ∷ terms) h = inr (In-classifications e terms h)
  In-classifications e (specific_license e' ∷ terms) h = inr (In-classifications e terms h)

  In-all_commons :
      (e : Element A String) (terms : List (Terms A))
      → In e (all_commons terms)
      → In (creative_commons e) terms
  unfolding all_commons
  In-all_commons e [] h = elim h [ ]
  In-all_commons e (creative_commons e' ∷ terms) (inl same) = inl (ap creative_commons same)
  In-all_commons e (creative_commons e' ∷ terms) (inr later) = inr (In-all_commons e terms later)
  In-all_commons e (logion_classification e' ∷ terms) h = inr (In-all_commons e terms h)
  In-all_commons e (specific_license e' ∷ terms) h = inr (In-all_commons e terms h)

  In-specific_licenses :
      (e : Element A String) (terms : List (Terms A))
      → In e (specific_licenses terms)
      → In (specific_license e) terms
  unfolding specific_licenses
  In-specific_licenses e [] h = elim h [ ]
  In-specific_licenses e (specific_license e' ∷ terms) (inl same) = inl (ap specific_license same)
  In-specific_licenses e (specific_license e' ∷ terms) (inr later) =
      inr (In-specific_licenses e terms later)
  In-specific_licenses e (logion_classification e' ∷ terms) h = inr (In-specific_licenses e terms h)
  In-specific_licenses e (creative_commons e' ∷ terms) h = inr (In-specific_licenses e terms h)

In-first_one :
    {E : Type 0} (e : E) (elements : List E) → first_one elements ≡ some e → In e elements
unfolding first_one
In-first_one e [] h = cc
In-first_one e (e' ∷ elements) h = inl (sym (some-injective _ _ h))

module _ {A : Type 0} (hashing : Hashing) (parse : String → Result Details)
    (is_iso_date : String → Bool) where
  -- what a collection item keeps
  unfoldable pub Keeps : CollectionItem A → Terms A → Type 0
  Keeps item (logion_classification e) = item.classification ≡ some e
  Keeps item (creative_commons e) = item.commons ≡ some e
  Keeps item (specific_license e) = In e item.licenses

  kept-In :
      (elements : List (Terms A)) (item : CollectionItem A) (element : Terms A)
      → ◌≡◌ {A = CollectionItem A}
          (record {
            classification = first_one (classifications elements);
            commons = first_one (all_commons elements);
            licenses = specific_licenses elements;
          })
          item
      → Keeps item element
      → In element elements
  unfolding Keeps
  kept-In elements item (logion_classification x) e h = In-classifications x elements (
      In-first_one x (classifications elements)
        (ap (λ (i : CollectionItem A). i.classification) e ∙ h))
  kept-In elements item (creative_commons x) e h =
      In-all_commons x elements
        (In-first_one x (all_commons elements) (ap (λ (i : CollectionItem A). i.commons) e ∙ h))
  kept-In elements item (specific_license x) e h =
      In-specific_licenses x elements
        (subst (In x) (sym (ap (λ (i : CollectionItem A). i.licenses) e)) h)

  -- A term that a collection item keeps is made of a type and details whose hashes are the ones that
  -- the chain has for an element of the item, whatever the backend answers.
  pub new_collection_item-Authentic :
      (terms : List (Merged A)) (item : CollectionItem A) (element : Terms A)
      → new_collection_item hashing parse is_iso_date terms ≡ ok item
      → Keeps item element
      → Authentic hashing parse is_iso_date terms element
  unfolding new_collection_item valid_terms_and_conditions
  new_collection_item-Authentic terms item element h kept =
      let (elements, made, last) =
        >>=-eq-ok (to_elements hashing parse is_iso_date (keep (is_valid_element hashing) terms)) _
          h in
      elements-Authentic hashing parse is_iso_date (keep (is_valid_element hashing) terms) terms
        elements element (λ m. In-keep (is_valid_element hashing) m terms) made
        (kept-In elements item element (ok-inj last) kept)
