-- ===== src/Collections.antt =====
-- packages/client/src/Collections.ts; `===` of the elements is a parameter.
pub mod Equality
use logion_api.Common.{
  ℕ, zero, suc, Bool, true, false, ◌&&◌, Option, none, some, List, [], ◌∷◌, length, get_elem?, ◌==◌,
  if◌then◌else◌,
}

module _ {A : Type 0} (same : A → A → Bool) where
  -- `item === array[index]`, where the array may have no such item
  unfoldable pub same_at : A → Option A → Bool
  same_at item none = false
  same_at item (some other) = same item other

  -- `array1.every` from an index on
  unfoldable pub every_same : List A → ℕ → List A → Bool
  every_same [] index array = true
  every_same (item ∷ items) index array =
      same_at item (get_elem? array index) && every_same items (suc index) array

  unfoldable pub array_equals : List A → List A → Bool
  array_equals array1 array2 =
      if length array1 == length array2 then every_same array1 0 array2 else false
