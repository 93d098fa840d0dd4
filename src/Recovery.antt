-- ===== src/Recovery.antt =====
-- packages/client/src/Recovery.ts: the state in which an account's protection or recovery is, by
-- what the chain and the backends know of it, and its requests. Submissions to the chain are left
-- out.
pub mod Requests
pub mod Classes
pub mod Parameters
pub mod Choice
pub mod Names
pub mod Table
use logion_api.Common.{
  ℕ, ◌==◌, String, Bool, true, false, not, ◌&&◌, ◌||◌, Option, none, some, List, [], ◌∷◌, ◌++◌, map,
  length, get_elem?, Result, ok, throw, ◌>>=◌, ◌>>◌, if◌then◌else◌, or_throw, ltb, ◌+◌,
}
use logion_api.Common.Texts.{includes, keep, template}
use logion_api.Recovery.Requests.{
  ProtectionRequest, ActionableRequest, SharedState, get_legal_officer, to_actionable_request,
}

-- what `fetchAll` collects from the chain and the legal officers' nodes
pub record FetchAllResult : Type 0 where
  pub pending : List ProtectionRequest
  pub accepted : List ProtectionRequest
  pub rejected : List ProtectionRequest
  pub cancelled : List ProtectionRequest
  -- the addresses of the recovery configuration
  pub recovery_config : Option (List String)
  pub recovered_address : Option String

pub record RecoverySharedState : Type 0 where
  pub shared : SharedState
  pub pending_requests : List ActionableRequest
  pub accepted_requests : List ActionableRequest
  pub rejected_requests : List ActionableRequest
  pub cancelled_requests : List ActionableRequest
  pub all_requests : List ActionableRequest
  pub config : Option (List String)
  pub recovered : Option String
  pub selected_legal_officers : List String

pub data StateName : Type 0 where
  no_protection pending_protection accepted_protection active_protection : StateName
  pending_recovery claimed_recovery unavailable_protection rejected_recovery : StateName

-- a state object: its class and what it holds
pub record ProtectionState : Type 0 where
  pub name : StateName
  pub holds : RecoverySharedState

abbrev pub is_defined : {A : Type 0} → Option A → Bool
is_defined none = false
is_defined (some a) = true

abbrev pub or_empty : {A : Type 0} → Option (List A) → List A
or_empty none = []
or_empty (some xs) = xs

unfoldable pub to_actionable_requests :
    SharedState → List ProtectionRequest → Result (List ActionableRequest)
to_actionable_requests shared [] = ok []
to_actionable_requests shared (request ∷ requests) = do
  actionable ← to_actionable_request shared request
  rest ← to_actionable_requests shared requests
  ok (actionable ∷ rest)

-- `getLegalOfficer(sharedState, requests[i].legalOfficerAddress)`
unfoldable pub officer_of : SharedState → List ProtectionRequest → ℕ → Result String
officer_of shared requests i = do
  request ← or_throw "TypeError: Cannot read properties of undefined" (get_elem? requests i)
  get_legal_officer shared request.legal_officer_address

-- the known legal officers whose address is in the list
unfoldable pub officers_in : SharedState → List String → List String
officers_in shared addresses = keep (includes addresses) shared.legal_officers

-- `requests.length > 0 && requests[0].isRecovery`
unfoldable pub first_is_recovery : List ProtectionRequest → Bool
first_is_recovery [] = false
first_is_recovery (request ∷ requests) = request.is_recovery

unfoldable pub addresses_of : List ProtectionRequest → List String
addresses_of [] = []
addresses_of (request ∷ requests) =
    request.legal_officer_address ∷ request.other_legal_officer_address ∷ []

unfoldable pub enter : StateName → RecoverySharedState → List String → ProtectionState
enter name state selected = record {
  name = name;
  holds = record state { selected_legal_officers = selected };
}

unfoldable pub enter_with_two :
    StateName → RecoverySharedState → Result String → Result String → Result ProtectionState
enter_with_two name state officer1 officer2 = do
  legal_officer1 ← officer1
  legal_officer2 ← officer2
  ok (enter name state (legal_officer1 ∷ legal_officer2 ∷ []))

-- the officers of the first rejected request: its own and the other one
unfoldable pub other_officer_of : SharedState → List ProtectionRequest → Result String
other_officer_of shared [] = throw "TypeError: Cannot read properties of undefined"
other_officer_of shared (request ∷ requests) =
    get_legal_officer shared request.other_legal_officer_address

-- `if(test1) { return result1; } else if(test2) { return result2; } ... else { return last; }`
unfoldable pub first_match : {R : Type 0} → List (Bool × R) → R → R
first_match [] last = last
first_match ((test, result) ∷ cases) last = if test then result else first_match cases last

-- the chain of tests of `getInitialState`
unfoldable pub choose_state : FetchAllResult → RecoverySharedState → Result ProtectionState
choose_state fetched state =
    let configured = is_defined fetched.recovery_config in
    let recovered = is_defined fetched.recovered_address in
    let pendings = length fetched.pending in
    let accepteds = length fetched.accepted in
    let rejecteds = length fetched.rejected in
    let total = pendings + accepteds + rejecteds in
    let covered = officers_in state.shared (or_empty fetched.recovery_config) in
    first_match
      ((not configured && not recovered && (total == 0), ok (enter no_protection state []))
        ∷ (configured && not recovered && (total == 0), ok (enter active_protection state covered))
        ∷ (configured && recovered, ok (enter claimed_recovery state covered))
        ∷ (
          configured && not recovered && first_is_recovery fetched.accepted,
          enter_with_two pending_recovery state (officer_of state.shared fetched.accepted 0)
              (officer_of state.shared fetched.accepted 1),
        )
        ∷ (
          not configured && not recovered && (accepteds == 2),
          enter_with_two accepted_protection state (officer_of state.shared fetched.accepted 0)
              (officer_of state.shared fetched.accepted 1),
        )
        ∷ (
          not configured && not recovered && (pendings == 2),
          enter_with_two pending_protection state (officer_of state.shared fetched.pending 0)
              (officer_of state.shared fetched.pending 1),
        )
        ∷ (
          not configured && not recovered && (pendings == 1) && (accepteds == 1),
          enter_with_two pending_protection state (officer_of state.shared fetched.pending 0)
              (officer_of state.shared fetched.accepted 0),
        )
        ∷ (
          not configured && not recovered && ltb 0 rejecteds,
          enter_with_two rejected_recovery state (officer_of state.shared fetched.rejected 0)
              (other_officer_of state.shared fetched.rejected),
        )
        ∷ (configured, ok (enter unavailable_protection state covered))
        ∷ [])
      (ok (
        enter unavailable_protection state (
          officers_in state.shared
            (addresses_of (fetched.pending ++ fetched.accepted ++ fetched.rejected)))))

unfoldable pub get_initial_state : FetchAllResult → SharedState → Result ProtectionState
get_initial_state fetched shared = do
  pending ← to_actionable_requests shared fetched.pending
  accepted ← to_actionable_requests shared fetched.accepted
  rejected ← to_actionable_requests shared fetched.rejected
  cancelled ← to_actionable_requests shared fetched.cancelled
  choose_state fetched (record {
    shared = shared;
    pending_requests = pending;
    accepted_requests = accepted;
    rejected_requests = rejected;
    cancelled_requests = cancelled;
    all_requests = pending ++ accepted ++ rejected;
    config = fetched.recovery_config;
    recovered = fetched.recovered_address;
    selected_legal_officers = [];
  })
