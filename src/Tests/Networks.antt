-- ===== src/Tests/Networks.antt =====
-- States of a network: packages/client/src/NetworkState.ts.
use logion_api.Common.{ℕ, ◌≡◌, ◌↔◌, refl, String, true, false, [], ◌∷◌}
use logion_api.Collections.{same_at, every_same, array_equals}
use logion_api.Http.{Endpoint}
use logion_api.Network.{NetworkState, all_nodes_up, urls, update, equals}
use logion_api.Network.Comparison.{equals_iff}

networks : Unit {0}
unfolding same_at every_same array_equals all_nodes_up urls update equals
networks = tt

abbrev node_of : ℕ → String → Endpoint ℕ
node_of owner url = record { url = url; owner = owner }

abbrev both_up : NetworkState ℕ
both_up = record { nodes_up = node_of 0 "a" ∷ node_of 1 "b" ∷ []; nodes_down = [] }

abbrev one_down : NetworkState ℕ
one_down = record { nodes_up = node_of 0 "a" ∷ []; nodes_down = node_of 1 "b" ∷ [] }

compared :
    (equals both_up (all_nodes_up (node_of 7 "a" ∷ node_of 8 "b" ∷ [])) ≡ true)
    × (equals both_up (all_nodes_up (node_of 1 "b" ∷ node_of 0 "a" ∷ [])) ≡ false)
    × (equals both_up one_down ≡ false)
    × (equals (update both_up one_down.nodes_up one_down.nodes_down) one_down ≡ true)
unfolding networks
compared = (refl, refl, refl, refl)

equals_iff_example : (equals both_up one_down ≡ true) ↔ (
    (urls both_up.nodes_up ≡ urls one_down.nodes_up)
    × (urls both_up.nodes_down ≡ urls one_down.nodes_down))
equals_iff_example = equals_iff both_up one_down
