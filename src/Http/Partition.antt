-- ===== src/Http/Partition.antt =====
-- What a query to all nodes leaves, packages/client/src/Http.ts.
use text.Mathlib.Text.{◌==◌}
use text.Mathlib.TextPositions.{eq_refl}
use logion_api.Common.{
  ◌≡◌, ◌≢◌, inl, inr, refl, sym, ap, ◌∙◌, subst, String, Bool, true, false, not, Option, none, some,
  List, [], ◌∷◌, ◌++◌, Result, ok, throw, if◌then◌else◌, In, eq_iff, arith, Result-cases,
}
use mathlib.Core.List.{append-nil, append_assoc}
use logion_api.Common.Texts.{keep, property}
use logion_api.Http.{
  Endpoint, MultiSourceHttpClientState, MultiResponse, put, settle, settle_all, fetch,
}

abbrev pub answers : {R : Type 0} → Result R → Bool
answers (ok value) = true
answers (throw message) = false

module _ {A R : Type 0} (query : Endpoint A → Result R) where
  settle_all-up :
      (nodes : List (Endpoint A)) (response : MultiResponse R)
      (client : MultiSourceHttpClientState A)
      → ((settle_all query nodes (response, client)).1.nodes_up
          ≡ client.nodes_up ++ keep (λ n. answers (query n)) nodes)
        × ((settle_all query nodes (response, client)).1.nodes_down
            ≡ client.nodes_down ++ keep (λ n. not (answers (query n))) nodes)
  unfolding settle_all settle
  settle_all-up [] response client =
      (sym (append-nil client.nodes_up), sym (append-nil client.nodes_down))
  settle_all-up (node ∷ nodes) response client = elim (Result-cases (query node)) [
    | inl (value, e) ↦
        let (up, down) =
          settle_all-up nodes (put node.url value response)
            (record client { nodes_up = client.nodes_up ++ node ∷ [] }) in
        rw (e, settle_all) (up ∙ append_assoc client.nodes_up (node ∷ []) _, down)
    | inr (message, e) ↦
        let (up, down) =
          settle_all-up nodes response
            (record client { nodes_down = client.nodes_down ++ node ∷ [] }) in
        rw (e, settle_all) (up, down ∙ append_assoc client.nodes_down (node ∷ []) _)
  ]

module _ {R : Type 0} where
  pub property-put :
      (url key : String) (value : R) (response : MultiResponse R)
      → property (put url value response) key
        ≡ (if url == key then some value else property response key)
  unfolding put
  property-put url key value [] = refl
  property-put url key value ((u, v) ∷ response) =
      ground
        (arith, eq_iff url key, eq_iff u url, eq_iff u key, property-put url key value response)

  if_defined :
      (test : Bool) (value : R) (o : Option R) → o ≢ none → (if test then some value else o) ≢ none
  if_defined true value o h e = cc
  if_defined false value o h e = h e

  put_defined :
      (url key : String) (value : R) (response : MultiResponse R)
      → property response key ≢ none
      → property (put url value response) key ≢ none
  put_defined url key value response h e =
      if_defined (url == key) value (property response key) h
        (sym (property-put url key value response) ∙ e)

  put_self :
      (url : String) (value : R) (response : MultiResponse R)
      → property (put url value response) url ≢ none
  put_self url value response e =
      let e' =
        subst (λ (b : Bool). (if b then some value else property response url) ≡ none) (eq_refl url)
          (sym (property-put url url value response) ∙ e) in
      cc

module _ {A R : Type 0} (query : Endpoint A → Result R) where
  settle_all-kept :
      (nodes : List (Endpoint A)) (response : MultiResponse R)
      (client : MultiSourceHttpClientState A) (key : String)
      → property response key ≢ none
      → property ((settle_all query nodes (response, client)).0) key ≢ none
  unfolding settle_all settle
  settle_all-kept [] response client key h = h
  settle_all-kept (node ∷ nodes) response client key h = elim (Result-cases (query node)) [
    | inl (value, e) ↦
        rw (e, settle_all)
          (settle_all-kept nodes (put node.url value response) _ key
            (put_defined node.url key value response h))
    | inr (message, e) ↦ rw (e, settle_all) (settle_all-kept nodes response _ key h)
  ]

  settle_all-responded :
      (nodes : List (Endpoint A)) (response : MultiResponse R)
      (client : MultiSourceHttpClientState A) (n : Endpoint A) (value : R)
      → In n nodes
      → query n ≡ ok value
      → property ((settle_all query nodes (response, client)).0) n.url ≢ none
  unfolding settle_all settle
  settle_all-responded [] response client n value h answer = elim h [ ]
  settle_all-responded (node ∷ nodes) response client n value (inl same) answer =
      subst
        (λ (m : Endpoint A).
          property ((settle_all query (node ∷ nodes) (response, client)).0) m.url ≢ none)
        (sym same)
        (rw (sym (ap query same) ∙ answer, settle_all)
          (settle_all-kept nodes (put node.url value response) _ node.url
            (put_self node.url value response)))
  settle_all-responded (node ∷ nodes) response client n value (inr later) answer =
      settle_all-responded nodes ((settle node (query node) (response, client)).0)
        ((settle node (query node) (response, client)).1) n value later answer

  -- After a query to all nodes the nodes that are up are those that answered, in their order, the
  -- others are down, after those that were, and each node that answered has a value.
  pub fetch-partition :
      (client : MultiSourceHttpClientState A)
      → ((fetch query client).1.nodes_up ≡ keep (λ n. answers (query n)) client.nodes_up)
        × ((fetch query client).1.nodes_down
            ≡ client.nodes_down ++ keep (λ n. not (answers (query n))) client.nodes_up)
        × ((n : Endpoint A) (value : R)
            → In n client.nodes_up
            → query n ≡ ok value
            → property ((fetch query client).0) n.url ≢ none)
  unfolding fetch
  fetch-partition client =
      let start = record client { nodes_up = [] } in
      let (up, down) = settle_all-up query client.nodes_up [] start in
      (up, down, settle_all-responded client.nodes_up [] start)
