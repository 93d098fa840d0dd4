-- ===== src/Network/Comparison.antt =====
-- What the comparison of network states decides, packages/client/src/NetworkState.ts.
use logion_api.Common.{◌≡◌, ◌↔◌, true, and_iff, eq_iff}
use logion_api.Collections.Equality.{array_equals_iff}
use logion_api.Network.{NetworkState, same_text, urls, equals}

module _ {A : Type 0} where
  -- Two states of a network are equal exactly when the same URLs are up, in the same order, and the
  -- same URLs are down, in the same order; what else an endpoint has does not count.
  pub equals_iff :
      (state other_state : NetworkState A)
      → (equals state other_state ≡ true) ↔ (
          (urls state.nodes_up ≡ urls other_state.nodes_up)
          × (urls state.nodes_down ≡ urls other_state.nodes_down))
  unfolding equals
  equals_iff state other_state = (
    λ h.
        let (ups, downs) = (and_iff _ _).0 h in
        (
          (array_equals_iff same_text eq_iff _ _).0 ups,
          (array_equals_iff same_text eq_iff _ _).0 downs,
        ),
    λ (ups, downs). (and_iff _ _).1 (
      (array_equals_iff same_text eq_iff _ _).1 ups,
      (array_equals_iff same_text eq_iff _ _).1 downs,
    ),
  )
