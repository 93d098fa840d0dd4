-- ===== src/Tests/Sources.antt =====
-- Queries to several nodes: packages/client/src/Http.ts.
use text.Mathlib.Text.{◌==◌}
use logion_api.Common.{
  ℕ, ◌≡◌, ◌≢◌, refl, String, not, none, some, List, [], ◌∷◌, ◌++◌, Result, ok, throw, In,
  if◌then◌else◌,
}
use logion_api.Common.Texts.{keep, property}
use logion_api.Http.{
  Endpoint, MultiSourceHttpClientState, all_up, put, settle, settle_all, fetch,
  selected_endpoint_index, fetch_any, aggregate_arrays,
}
use logion_api.Http.Partition.{answers, fetch-partition}

sources : Unit {0}
unfolding all_up put settle settle_all fetch selected_endpoint_index fetch_any aggregate_arrays
sources = tt

abbrev node_at : String → Endpoint ℕ
node_at url = record { url = url; owner = 0 }

abbrev three_nodes : List (Endpoint ℕ)
three_nodes = node_at "a" ∷ node_at "b" ∷ node_at "c" ∷ []

-- The node "b" fails.
abbrev ask : Endpoint ℕ → Result (List ℕ)
ask node = if node.url == "b" then throw "ECONNREFUSED" else ok (7 ∷ [])

abbrev client : MultiSourceHttpClientState ℕ
client = record { nodes_up = three_nodes; nodes_down = [] }

fetched :
    (fetch ask (all_up three_nodes) ≡ (
      ("a", 7 ∷ []) ∷ ("c", 7 ∷ []) ∷ [],
      record { nodes_up = node_at "a" ∷ node_at "c" ∷ []; nodes_down = node_at "b" ∷ [] },
    ))
    × (aggregate_arrays ((fetch ask client).0) ≡ 7 ∷ 7 ∷ [])
unfolding sources
fetched = (refl, refl)

-- The second node is asked first, and fails.
second_first :
    fetch_any 4 (λ nodes. 4) ask three_nodes []
    ≡ some (
      some (7 ∷ []),
      record { nodes_up = node_at "a" ∷ node_at "c" ∷ []; nodes_down = node_at "b" ∷ [] },
    )
unfolding sources
second_first = refl

fetch-partition_example :
    ((fetch ask client).1.nodes_up ≡ keep (λ n. answers (ask n)) three_nodes)
    × ((fetch ask client).1.nodes_down ≡ [] ++ keep (λ n. not (answers (ask n))) three_nodes)
    × ((n : Endpoint ℕ) (value : List ℕ)
        → In n three_nodes
        → ask n ≡ ok value
        → property ((fetch ask client).0) n.url ≢ none)
fetch-partition_example = fetch-partition ask client
