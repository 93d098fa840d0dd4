-- ===== src/Http.antt =====
-- packages/client/src/Http.ts: a query sent to all the nodes that are up, or to one of them at a
-- time. A rejected query is a `throw`; it does not depend on the order of the answers.
pub mod Partition
pub mod Fallback
use logion_api.Common.{
  ℕ, zero, suc, ◌%◌, ◌<◌, String, Bool, Option, none, some, List, [], ◌∷◌, ◌++◌, length, take, drop,
  Result, ok, throw, if◌then◌else◌,
}
use text.Mathlib.Text.{◌==◌}

-- interface Endpoint, with what else an endpoint has
pub record Endpoint (A : Type 0) : Type 0 where
  pub url : String
  pub owner : A

pub record MultiSourceHttpClientState (A : Type 0) : Type 0 where
  pub nodes_up : List (Endpoint A)
  pub nodes_down : List (Endpoint A)

unfoldable pub all_up : {A : Type 0} → List (Endpoint A) → MultiSourceHttpClientState A
all_up endpoints = record { nodes_up = endpoints; nodes_down = [] }

-- Record<string, R>
abbrev pub MultiResponse : Type 0 → Type 0
MultiResponse R = List (String × R)

-- `multiResponse[url] = value`
unfoldable pub put : {R : Type 0} → String → R → MultiResponse R → MultiResponse R
put url value [] = (url, value) ∷ []
put url value ((u, v) ∷ response) =
    if u == url then (u, value) ∷ response else (u, v) ∷ put url value response

unfoldable pub aggregate_arrays : {E : Type 0} → MultiResponse (List E) → List E
aggregate_arrays [] = []
aggregate_arrays ((url, array) ∷ response) = array ++ aggregate_arrays response

-- `selectedEndpointIndex`: any number, brought in the range of the nodes that are up
unfoldable pub selected_endpoint_index :
    {A : Type 0} → (List (Endpoint A) → ℕ) → List (Endpoint A) → ℕ
selected_endpoint_index random [] = 0
selected_endpoint_index random (node ∷ nodes) = random (node ∷ nodes) % suc (length nodes)

module _ {A R : Type 0} where
  -- one result of `Promise.allSettled`
  unfoldable pub settle :
      Endpoint A
      → Result R
      → MultiResponse R × MultiSourceHttpClientState A
      → MultiResponse R × MultiSourceHttpClientState A
  settle node (ok value) (response, client) =
      (put node.url value response, record client { nodes_up = client.nodes_up ++ node ∷ [] })
  settle node (throw message) (response, client) =
      (response, record client { nodes_down = client.nodes_down ++ node ∷ [] })

  unfoldable pub settle_all :
      (Endpoint A → Result R)
      → List (Endpoint A)
      → MultiResponse R × MultiSourceHttpClientState A
      → MultiResponse R × MultiSourceHttpClientState A
  settle_all query [] state = state
  settle_all query (node ∷ nodes) state = settle_all query nodes (settle node (query node) state)

  -- `fetch` of MultiSourceHttpClient
  unfoldable pub fetch :
      (Endpoint A → Result R)
      → MultiSourceHttpClientState A
      → MultiResponse R × MultiSourceHttpClientState A
  fetch query client = settle_all query client.nodes_up ([], record client { nodes_up = [] })

  -- `fetch` of AnySourceHttpClient, on fuel: `none` says that it ran out. The selected
  -- node leaves the nodes that are up when its query fails.
  unfoldable pub fetch_any :
      ℕ
      → (List (Endpoint A) → ℕ)
      → (Endpoint A → Result R)
      → List (Endpoint A)
      → List (Endpoint A)
      → Option (Option R × MultiSourceHttpClientState A)
  fetch_any zero random query up down = none
  fetch_any (suc fuel) random query up down = elim (drop (selected_endpoint_index random up) up) [
    | [] ↦ some (none, record { nodes_up = up; nodes_down = down })
    | node ∷ after ↦
        let others = take (selected_endpoint_index random up) up ++ after in
        elim (query node) [
          | ok value ↦ some (some value, record { nodes_up = up; nodes_down = down })
          | throw message ↦ fetch_any fuel random query others (down ++ node ∷ [])
        ]
  ]
