-- ===== src/Network.antt =====
-- packages/client/src/NetworkState.ts: which nodes are up and which are down.
pub mod Comparison
use logion_api.Common.{String, Bool, ◌&&◌, List, [], map}
use logion_api.Collections.{array_equals}
use logion_api.Http.{Endpoint}
use text.Mathlib.Text.{◌==◌}

pub record NetworkState (A : Type 0) : Type 0 where
  pub nodes_up : List (Endpoint A)
  pub nodes_down : List (Endpoint A)

abbrev pub same_text : String → String → Bool
same_text text other = text == other

module _ {A : Type 0} where
  -- `allUp` of NetworkState
  unfoldable pub all_nodes_up : List (Endpoint A) → NetworkState A
  all_nodes_up nodes_up = record { nodes_up = nodes_up; nodes_down = [] }

  -- `nodes.map(endpoint => endpoint.url)`
  unfoldable pub urls : List (Endpoint A) → List String
  urls nodes = map (λ endpoint. endpoint.url) nodes

  unfoldable pub update : NetworkState A → List (Endpoint A) → List (Endpoint A) → NetworkState A
  update state nodes_up nodes_down = record { nodes_up = nodes_up; nodes_down = nodes_down }

  unfoldable pub equals : NetworkState A → NetworkState A → Bool
  equals state other_state =
      array_equals same_text (urls state.nodes_up) (urls other_state.nodes_up)
      && array_equals same_text (urls state.nodes_down) (urls other_state.nodes_down)
