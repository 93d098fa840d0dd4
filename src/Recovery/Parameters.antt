-- ===== src/Recovery/Parameters.antt =====
-- `buildProtectionParameters` of packages/client/src/Recovery.ts: what a protection state shows.
-- The constructor of UUID is a parameter.
use text.Mathlib.Text.{◌==◌}
use logion_api.Common.{
  ◌≡◌, refl, String, Bool, false, ◌||◌, Option, none, some, List, [], ◌∷◌, ◌++◌, Result, ok, throw,
  ◌>>=◌, if◌then◌else◌, Bool-cases, get_elem?, inl, inr,
}
use logion_api.Common.Texts.{is_empty}
use logion_api.Recovery.Requests.{ProtectionRequestStatus, ActionableRequest}
use logion_api.Recovery.{RecoverySharedState, is_defined}

pub record LegalOfficerProtectionState (U : Type 0) : Type 0 where
  pub id : String
  pub legal_officer : String
  pub identity_loc : U
  pub status : ProtectionRequestStatus

pub record ProtectionParameters (U : Type 0) : Type 0 where
  pub legal_officers : List String
  pub states : List (LegalOfficerProtectionState U)
  pub recovered_address : Option String
  pub is_recovery : Bool
  pub is_active : Bool
  pub is_claimed : Bool

-- `requests.find(request => request.legalOfficerAddress === officer.address)`: with no officer there
-- the first request throws
unfoldable pub find_request :
    List ActionableRequest → Option String → Result (Option ActionableRequest)
find_request [] officer = ok none
find_request (r ∷ requests) none = throw "TypeError: Cannot read properties of undefined"
find_request (r ∷ requests) (some officer) =
    if r.request.legal_officer_address == officer
    then ok (some r)
    else find_request requests (some officer)

unfoldable pub first_request_is_recovery : List ActionableRequest → Bool
first_request_is_recovery [] = false
first_request_is_recovery (r ∷ requests) = r.request.is_recovery

-- `request1?.addressToRecover || undefined`
unfoldable pub address_of : Option ActionableRequest → Option String
address_of none = none
address_of (some r) =
    if is_empty r.request.address_to_recover then none else some r.request.address_to_recover

module _ {U : Type 0} where
  unfoldable pub build_protection_state :
      (String → Result U) → String → ActionableRequest → Result (LegalOfficerProtectionState U)
  build_protection_state new_uuid legal_officer r = do
    identity_loc ← new_uuid r.request.requester_identity_loc
    ok (record {
      id = r.request.id;
      legal_officer = legal_officer;
      identity_loc = identity_loc;
      status = r.request.status;
    })

  -- the states that are pushed for a request, if it was found; a request is found with an officer
  unfoldable pub states_of :
      (String → Result U)
      → Option String
      → Option ActionableRequest
      → Result (List (LegalOfficerProtectionState U))
  states_of new_uuid officer none = ok []
  states_of new_uuid none (some r) = throw "TypeError: Cannot read properties of undefined"
  states_of new_uuid (some officer) (some r) = do
    state ← build_protection_state new_uuid officer r
    ok (state ∷ [])

  unfoldable pub build_protection_parameters :
      (String → Result U) → RecoverySharedState → Result (ProtectionParameters U)
  build_protection_parameters new_uuid state = do
    let officer1 = get_elem? state.selected_legal_officers 0
    let officer2 = get_elem? state.selected_legal_officers 1
    request1 ← find_request state.all_requests officer1
    request2 ← find_request state.all_requests officer2
    states1 ← states_of new_uuid officer1 request1
    states2 ← states_of new_uuid officer2 request2
    ok (record {
      legal_officers = state.selected_legal_officers;
      states = states1 ++ states2;
      recovered_address = address_of request1;
      is_recovery = is_defined state.recovered || first_request_is_recovery state.all_requests;
      is_active = is_defined state.config;
      is_claimed = is_defined state.recovered;
    })

  -- the requests have identifiers of LOCs that UUID accepts
  unfoldable pub AllIdentified : (String → Result U) → List ActionableRequest → Type 0
  AllIdentified new_uuid [] = Unit
  AllIdentified new_uuid (r ∷ requests) =
      ((u : U) × (new_uuid r.request.requester_identity_loc ≡ ok u))
      × AllIdentified new_uuid requests

  -- A search with an officer ends well, and what it finds gives its states.
  found_states :
      (new_uuid : String → Result U) (requests : List ActionableRequest) (officer : String)
      → AllIdentified new_uuid requests
      → (found : Option ActionableRequest) × (find_request requests (some officer) ≡ ok found)
        × ((states : List (LegalOfficerProtectionState U)) × (states_of new_uuid
                (some officer)
                found
              ≡ ok states))
  unfolding find_request states_of build_protection_state AllIdentified
  found_states new_uuid [] officer h = (none, refl, ([], refl))
  found_states new_uuid (r ∷ requests) officer ((u, e), h) =
      elim (Bool-cases (r.request.legal_officer_address == officer)) [
        | inl same ↦ (
          some r,
          rw same,
          (
            record {
              id = r.request.id;
              legal_officer = officer;
              identity_loc = u;
              status = r.request.status;
            }
                ∷ [],
            rw e,
          ),
        )
        | inr other ↦
            let (found, search, states) = found_states new_uuid requests officer h in
            (found, rw other search, states)
      ]

  -- With two selected officers the parameters are built.
  pub build_protection_parameters-two :
      (new_uuid : String → Result U) (state : RecoverySharedState) (officer1 officer2 : String)
      → state.selected_legal_officers ≡ officer1 ∷ officer2 ∷ []
      → AllIdentified new_uuid state.all_requests
      → (parameters : ProtectionParameters U) × (build_protection_parameters new_uuid state
          ≡ ok parameters)
        × (parameters.legal_officers ≡ officer1 ∷ officer2 ∷ [])
  unfolding build_protection_parameters
  build_protection_parameters-two new_uuid state officer1 officer2 selected h =
      let (found1, search1, (states1, made1)) =
        found_states new_uuid state.all_requests officer1 h in
      let (found2, search2, (states2, made2)) =
        found_states new_uuid state.all_requests officer2 h in
      rw (selected, search1, search2, made1, made2) (_, refl, refl)
