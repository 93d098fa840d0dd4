-- ===== src/Collections/Equality.antt =====
-- What the comparison of arrays decides, packages/client/src/Collections.ts.
use logion_api.Common.{
  if◌then◌else◌, arith, and_iff, subst, ℕ, suc, ◌≡◌, refl, ap, Bool, true, false, ◌&&◌, List, [],
  ◌∷◌, length, ◌==◌, ◌↔◌, ==_iff,
}
use logion_api.Collections.{same_at, every_same, array_equals}

if_iff : (a b : Bool) → ((if a then b else false) ≡ true) ↔ ((a ≡ true) × (b ≡ true))
if_iff a b = ground arith

module _ {A : Type 0} (same : A → A → Bool)
    (decides : (x y : A) → (same x y ≡ true) ↔ (x ≡ y)) where
  every_same_shift :
      (items : List A) (index : ℕ) (other : A) (array : List A)
      → every_same same items (suc index) (other ∷ array) ≡ every_same same items index array
  unfolding every_same
  every_same_shift [] index other array = refl
  every_same_shift (item ∷ items) index other array =
      rw (every_same_shift items (suc index) other array)

  every_same→eq :
      (xs ys : List A) → length xs ≡ length ys → every_same same xs 0 ys ≡ true → xs ≡ ys
  unfolding every_same same_at
  every_same→eq [] [] e h = refl
  every_same→eq [] (y ∷ ys) e h = absurd (omega arith)
  every_same→eq (x ∷ xs) [] e h = absurd (omega arith)
  every_same→eq (x ∷ xs) (y ∷ ys) e h =
      let shifted : (same x y && every_same same xs 0 ys) ≡ true =
        subst (λ b. (same x y && b) ≡ true) (every_same_shift xs 0 y ys) h in
      let (first, rest) = (and_iff _ _).0 shifted in
      let heads = (decides x y).0 first in let tails = every_same→eq xs ys (omega arith) rest in cc

  every_same_self : (xs : List A) → every_same same xs 0 xs ≡ true
  unfolding every_same same_at
  every_same_self [] = refl
  every_same_self (x ∷ xs) =
      rw ((decides x x).1 refl, every_same_shift xs 0 x xs, every_same_self xs)

  -- Arrays are equal exactly when their items are, in their order.
  pub array_equals_iff : (xs ys : List A) → (array_equals same xs ys ≡ true) ↔ (xs ≡ ys)
  unfolding array_equals
  array_equals_iff xs ys = (
    λ h.
        let (lengths, items) = (if_iff (length xs == length ys) (every_same same xs 0 ys)).0 h in
        every_same→eq xs ys ((==_iff _ _).0 lengths) items,
    λ e. (if_iff (length xs == length ys) (every_same same xs 0 ys)).1 (
      (==_iff _ _).1 (ap length e),
      subst (λ zs. every_same same xs 0 zs ≡ true) e (every_same_self xs),
    ),
  )
