-- ===== src/Deliveries/Search.antt =====
-- What the check of a certified copy finds, packages/client/src/Deliveries.ts.
use logion_api.Common.{
  and_iff, ℕ, zero, suc, ◌+◌, ◌≡◌, ◌↔◌, ◌⊎◌, inl, inr, refl, sym, subst, Bool, true, false, Option,
  none, some, List, [], ◌∷◌, ok, >>=-eq-ok, ok-inj, if◌then◌else◌, ◌==◌, ==_iff, arith, get_elem?,
  Option-cases,
}
use mathlib.Core.Option.{some-injective}
use logion_api.Numbers.Text.{Text, text_eq}
use logion_api.Hash.{Hash, to_hex, from_hex}
use logion_api.Deliveries.{
  ItemDelivery, ItemDeliveries, positive, CheckCertifiedCopyResult, check_type, find_copy,
  result_of, no_copy, answer, check_certified_copy,
}

abbrev pub IsCopy : Hash → ItemDelivery → Type 0
IsCopy hash delivery = text_eq delivery.copy_hash (to_hex hash) ≡ true

-- The copy is one of the deliveries, under this file and at this index.
unfoldable pub Delivered : ItemDeliveries → Text → ℕ → ItemDelivery → Type 0
Delivered [] original i delivery = ⊥
Delivered ((original', deliveries) ∷ rest) original i delivery =
    ((original ≡ original') × (get_elem? deliveries i ≡ some delivery))
    ⊎ Delivered rest original i delivery

-- No delivery is a copy.
unfoldable pub NoCopy : Hash → ItemDeliveries → Type 0
NoCopy hash [] = Unit
NoCopy hash ((original, deliveries) ∷ rest) =
    ((i : ℕ) (delivery : ItemDelivery)
      → get_elem? deliveries i ≡ some delivery
      → text_eq delivery.copy_hash (to_hex hash) ≡ false)
    × NoCopy hash rest

first_or_later :
    {A : Type 0} (test : Bool) (x : A) (later : Option A) {found : A}
    → (if test then some x else later) ≡ some found
    → ((test ≡ true) × (x ≡ found)) ⊎ ((test ≡ false) × (later ≡ some found))
first_or_later true x later h = inl (refl, some-injective _ _ h)
first_or_later false x later h = inr (refl, h)

neither :
    {A : Type 0} (test : Bool) (x : A) (later : Option A)
    → (if test then some x else later) ≡ none
    → (test ≡ false) × (later ≡ none)
neither true x later h = cc
neither false x later h = (refl, h)

-- the copy that a search from an index on has found
abbrev Found : Hash → ℕ → List ItemDelivery → ℕ × ItemDelivery → Type 0
Found hash start deliveries found =
    (i : ℕ) × (found.0 ≡ start + i)
    × (get_elem? deliveries i ≡ some (found.1))
    × IsCopy hash (found.1)

find_copy-some :
    (hash : Hash) (start : ℕ) (deliveries : List ItemDelivery) {found : ℕ × ItemDelivery}
    → find_copy hash start deliveries ≡ some found
    → Found hash start deliveries found
unfolding find_copy
find_copy-some hash start [] h = cc
find_copy-some hash start (delivery ∷ deliveries) h =
    elim (first_or_later (text_eq delivery.copy_hash (to_hex hash)) (start, delivery) _ h) [
      | inl (e, same) ↦
          subst (Found hash start (delivery ∷ deliveries)) same (0, omega arith, refl, e)
      | inr (e, h') ↦
          let (i, index, listed, copy) = find_copy-some hash (suc start) deliveries h' in
          (suc i, omega (arith, index), listed, copy)
    ]

find_copy-none :
    (hash : Hash) (start : ℕ) (deliveries : List ItemDelivery)
    → find_copy hash start deliveries ≡ none
    → (i : ℕ) (delivery : ItemDelivery) → get_elem? deliveries i ≡ some delivery
    → text_eq delivery.copy_hash (to_hex hash) ≡ false
unfolding find_copy
find_copy-none hash start [] h i delivery e = cc
find_copy-none hash start (d ∷ deliveries) h zero delivery e =
    let (other, h') = neither (text_eq d.copy_hash (to_hex hash)) (start, d) _ h in
    subst (λ (x : ItemDelivery). text_eq x.copy_hash (to_hex hash) ≡ false) (some-injective _ _ e)
      other
find_copy-none hash start (d ∷ deliveries) h (suc i) delivery e =
    let (other, h') = neither (text_eq d.copy_hash (to_hex hash)) (start, d) _ h in
    find_copy-none hash (suc start) deliveries h' i delivery e

-- what a positive or a negative result stands for
pub record Certified (deliveries : ItemDeliveries) (hash : Hash) (result : CheckCertifiedCopyResult)
    : Type 0 where
  pub original : Text
  pub index : ℕ
  pub delivery : ItemDelivery
  pub original_hash : Hash
  pub delivered : Delivered deliveries original index delivery
  pub copy : IsCopy hash delivery
  pub read : from_hex original ≡ ok original_hash
  pub found :
      result.found ≡ some (record { delivery = delivery; original_file_hash = original_hash })
  pub origin : result.logion_origin ≡ positive
  pub last : (result.latest ≡ positive) ↔ (index ≡ 0)
  pub owned : (result.nft_ownership ≡ positive) ↔ (delivery.belongs_to_current_owner ≡ true)
  pub both :
      (result.summary ≡ positive) ↔ ((index ≡ 0) × (delivery.belongs_to_current_owner ≡ true))

check_type_iff : (test : Bool) → (check_type test ≡ positive) ↔ (test ≡ true)
unfolding check_type
check_type_iff true = (λ h. refl, λ h. refl)
check_type_iff false = (λ h. cc, λ h. cc)

from_zero : {i j : ℕ} → i ≡ 0 + j → j ≡ i
from_zero e = omega (arith, e)

Certified-later :
    (entry : Text × List ItemDelivery) (rest : ItemDeliveries) (hash : Hash)
    (result : CheckCertifiedCopyResult)
    → Certified rest hash result
    → Certified (entry ∷ rest) hash result
unfolding Delivered
Certified-later (original, files) rest hash result c = record {
  original = c.original;
  index = c.index;
  delivery = c.delivery;
  original_hash = c.original_hash;
  delivered = inr c.delivered;
  copy = c.copy;
  read = c.read;
  found = c.found;
  origin = c.origin;
  last = c.last;
  owned = c.owned;
  both = c.both;
}

result_of-Certified :
    (original : Text) (files : List ItemDelivery) (rest : ItemDeliveries) (hash : Hash) (i : ℕ)
    (delivery : ItemDelivery) (result : CheckCertifiedCopyResult)
    → get_elem? files i ≡ some delivery
    → IsCopy hash delivery
    → result_of original i delivery ≡ ok result
    → Certified ((original, files) ∷ rest) hash result
unfolding result_of Delivered
result_of-Certified original files rest hash i delivery result listed copy h =
    let (original_hash, read, made) = >>=-eq-ok (from_hex original) _ h in
    subst (Certified ((original, files) ∷ rest) hash) (ok-inj made) (record {
      original = original;
      index = i;
      delivery = delivery;
      original_hash = original_hash;
      delivered = inl (refl, listed);
      copy = copy;
      read = read;
      found = refl;
      origin = refl;
      last = (
        λ p. (==_iff i 0).0 ((check_type_iff (i == 0)).0 p),
        λ e. (check_type_iff (i == 0)).1 ((==_iff i 0).1 e),
      );
      owned = check_type_iff delivery.belongs_to_current_owner;
      both = (
        λ p.
            let (first, owned) =
              (and_iff (i == 0) delivery.belongs_to_current_owner).0 ((check_type_iff _).0 p) in
            ((==_iff i 0).0 first, owned),
        λ (first, owned).
            (check_type_iff _).1 (
              (and_iff (i == 0) delivery.belongs_to_current_owner).1 ((==_iff i 0).1 first, owned)),
      );
    })

-- A certified copy is found exactly where a delivery has the hash: the result then tells the file
-- and the delivery, if it is the latest of the file, and if the current owner has it, and is
-- positive exactly with both; without a copy all results are negative.
pub check_certified_copy-Certified :
    (deliveries : ItemDeliveries) (hash : Hash) (result : CheckCertifiedCopyResult)
    → check_certified_copy deliveries hash ≡ ok result
    → Certified deliveries hash result ⊎ ((result ≡ no_copy) × NoCopy hash deliveries)
unfolding check_certified_copy NoCopy answer
check_certified_copy-Certified [] hash result h = inr (sym (ok-inj h), tt)
check_certified_copy-Certified ((original, files) ∷ rest) hash result h =
    elim (Option-cases (find_copy hash 0 files)) [
      | inl nothing ↦
          let h' =
            subst
              (λ (f : Option (ℕ × ItemDelivery)).
                answer original f (check_certified_copy rest hash) ≡ ok result)
              nothing h in
          elim (check_certified_copy-Certified rest hash result h') [
            | inl c ↦ inl (Certified-later (original, files) rest hash result c)
            | inr (same, none_later) ↦ inr (same, (find_copy-none hash 0 files nothing, none_later))
          ]
      | inr ((i, delivery), e) ↦
          let h' =
            subst
              (λ (f : Option (ℕ × ItemDelivery)).
                answer original f (check_certified_copy rest hash) ≡ ok result)
              e h in
          let (j, index, listed, copy) = find_copy-some hash 0 files e in
          let listed' =
            subst (λ (k : ℕ). get_elem? files k ≡ some delivery) (from_zero index) listed in
          inl (result_of-Certified original files rest hash i delivery result listed' copy h')
    ]
