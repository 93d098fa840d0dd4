-- ===== src/Http/Fallback.antt =====
-- What a query to one node at a time ends with, packages/client/src/Http.ts.
use logion_api.Common.{
  ℕ, zero, suc, ◌+◌, ◌<◌, ◌≡◌, ◌⊎◌, inl, inr, refl, ap, Option, none, some, List, [], ◌∷◌, ◌++◌,
  length, take, drop, Result, ok, throw, In, arith, String,
}
use logion_api.Http.{Endpoint, MultiSourceHttpClientState, fetch_any}

-- An element taken out of a list at an index.
record Removed {A : Type 0} (i : ℕ) (xs : List A) : Type 0 where
  element : A
  after : List A
  dropped : drop i xs ≡ element ∷ after
  shorter : suc (length (take i xs ++ after)) ≡ length xs
  was_there : In element xs
  others_there : (y : A) → In y (take i xs ++ after) → In y xs
  either : (y : A) → In y xs → (y ≡ element) ⊎ In y (take i xs ++ after)

remove : {A : Type 0} (i : ℕ) (xs : List A) → i < length xs → Removed i xs
remove i [] h = absurd (omega arith)
remove zero (x ∷ xs) h = record {
  element = x;
  after = xs;
  dropped = refl;
  shorter = refl;
  was_there = inl refl;
  others_there = λ y there. inr there;
  either = λ y there. there;
}
remove (suc i) (x ∷ xs) h =
    let rest = remove i xs (omega arith) in
    record {
      element = rest.element;
      after = rest.after;
      dropped = rest.dropped;
      shorter = ap suc rest.shorter;
      was_there = inr rest.was_there;
      others_there = λ y there. elim there [
        | inl same ↦ inl same
        | inr later ↦ inr (rest.others_there y later)
      ];
      either = λ y there. elim there [
        | inl same ↦ inr (inl same)
        | inr later ↦ elim (rest.either y later) [ inl same ↦ inl same | inr kept ↦ inr (inr kept) ]
      ];
    }

module _ {A R : Type 0} (random : List (Endpoint A) → ℕ) (query : Endpoint A → Result R) where
  -- What the loop ends with: an answer of a node, or failures of all nodes that were up.
  abbrev pub Ended :
      List (Endpoint A) → List (Endpoint A) → Option R × MultiSourceHttpClientState A → Type 0
  Ended up down ended =
      ((value : R) × (node : Endpoint A) × (ended.0 ≡ some value)
        × In node up
        × (query node ≡ ok value))
      ⊎ ((ended.0 ≡ none)
          × ((node : Endpoint A) → In node up → (message : String) × (query node ≡ throw message)))

  abbrev Ends : ℕ → List (Endpoint A) → List (Endpoint A) → Type 0
  Ends fuel up down =
      (ended : Option R × MultiSourceHttpClientState A) × (fetch_any fuel random query up down
        ≡ some ended)
      × Ended up down ended
      × (length ended.1.nodes_up + length ended.1.nodes_down ≡ length up + length down)
