-- ===== src/Tests/Protections.antt =====
-- Protection and recovery: packages/client/src/Recovery.ts.
use logion_api.Common.{
  ◌≡◌, ◌↔◌, refl, String, Bool, true, false, none, some, [], ◌∷◌, ok, throw, Result,
}
use logion_api.Recovery.Requests.{
  ProtectionRequest, ProtectionRequestStatus, accepted, rejected, pending, SharedState, has_cancel,
  has_resubmit, has_update, updatable, updatable_re_submittable, get_legal_officer, is_cancelled,
  is_activated, is_rejected, class_of, to_actionable_request,
}
use logion_api.Recovery.Classes.{IsOpen, to_actionable_request-class}
use logion_api.Recovery.{
  FetchAllResult, ProtectionState, accepted_protection, to_actionable_requests, officer_of,
  officers_in, first_is_recovery, addresses_of, enter, enter_with_two, other_officer_of,
  first_match, choose_state, get_initial_state,
}
use logion_api.Recovery.Parameters.{AllIdentified}
use logion_api.Recovery.Choice.{FromRequests}
use logion_api.Recovery.Table.{Decided, Rules, facts_of, get_initial_state-name}

protections : Unit {0}
unfolding get_legal_officer is_cancelled is_activated is_rejected class_of to_actionable_request
    to_actionable_requests officer_of officers_in first_is_recovery addresses_of enter
    enter_with_two other_officer_of first_match choose_state get_initial_state FromRequests
    AllIdentified Decided
protections = tt

abbrev request_to : ProtectionRequestStatus → Bool → String → String → ProtectionRequest
request_to status is_recovery officer other = record {
  id = officer;
  requester_identity_loc = "loc";
  is_recovery = is_recovery;
  address_to_recover = "";
  status = status;
  legal_officer_address = officer;
  other_legal_officer_address = other;
}

abbrev alice_and_bob : SharedState
alice_and_bob = record { legal_officers = "alice" ∷ "bob" ∷ []; authentication = ok tt }

abbrev both_accepted : FetchAllResult
both_accepted = record {
  pending = [];
  accepted = request_to accepted false "alice" "bob" ∷ request_to accepted false "bob" "alice" ∷ [];
  rejected = [];
  cancelled = [];
  recovery_config = none;
  recovered_address = none;
}

abbrev accepted_state : ProtectionState
accepted_state = record {
  name = accepted_protection;
  holds = record {
    shared = alice_and_bob;
    pending_requests = [];
    accepted_requests =
        record { request = request_to accepted false "alice" "bob"; class = updatable }
        ∷ record { request = request_to accepted false "bob" "alice"; class = updatable }
        ∷ [];
    rejected_requests = [];
    cancelled_requests = [];
    all_requests =
        record { request = request_to accepted false "alice" "bob"; class = updatable }
        ∷ record { request = request_to accepted false "bob" "alice"; class = updatable }
        ∷ [];
    config = none;
    recovered = none;
    selected_legal_officers = "alice" ∷ "bob" ∷ [];
  };
}

both_accepted_state : get_initial_state both_accepted alice_and_bob ≡ ok accepted_state
unfolding protections
both_accepted_state = refl

-- A recovery that only one legal officer has accepted.
lone_acceptance :
    get_initial_state
      (record {
        pending = request_to pending true "bob" "alice" ∷ [];
        accepted = request_to accepted true "alice" "bob" ∷ [];
        rejected = [];
        cancelled = [];
        recovery_config = some ("alice" ∷ "bob" ∷ []);
        recovered_address = none;
      })
      alice_and_bob
    ≡ throw "TypeError: Cannot read properties of undefined"
unfolding protections
lone_acceptance = refl

abbrev any_uuid : String → Result String
any_uuid text = ok text

decided : Decided accepted_protection
unfolding protections
decided = tt

get_initial_state-name_example :
    (accepted_state.name ≡ accepted_protection) ↔ Rules (facts_of both_accepted) accepted_protection
get_initial_state-name_example =
    get_initial_state-name both_accepted alice_and_bob accepted_state accepted_protection
      both_accepted_state decided

rejected_request :
    to_actionable_request alice_and_bob (request_to rejected false "alice" "bob")
    ≡ ok (record {
      request = request_to rejected false "alice" "bob";
      class = updatable_re_submittable;
    })
unfolding protections
rejected_request = refl

to_actionable_request-class_example :
    (request_to rejected false "alice" "bob" ≡ request_to rejected false "alice" "bob")
    × ((has_cancel updatable_re_submittable ≡ true) ↔ IsOpen rejected)
    × ((has_resubmit updatable_re_submittable ≡ true) ↔ (rejected ≡ rejected))
    × ((has_update updatable_re_submittable ≡ true) ↔ (IsOpen rejected × (false ≡ false)))
to_actionable_request-class_example =
    to_actionable_request-class alice_and_bob (request_to rejected false "alice" "bob")
      (record {
        request = request_to rejected false "alice" "bob";
        class = updatable_re_submittable;
      })
      rejected_request
