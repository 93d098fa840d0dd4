-- ===== src/Recovery/Choice.antt =====
-- The choice of the protection state by `getInitialState`, packages/client/src/Recovery.ts.
use logion_api.Common.{◌≡◌, String, Bool, List, [], ◌∷◌, Result, ok, >>=-eq-ok}
use logion_api.Recovery.Requests.{SharedState}
use logion_api.Recovery.{
  FetchAllResult, RecoverySharedState, ProtectionState, StateName, no_protection,
  pending_protection, accepted_protection, active_protection, pending_recovery, claimed_recovery,
  unavailable_protection, rejected_recovery, choose_state, get_initial_state,
  to_actionable_requests,
}

-- The states that come from the requests to two legal officers.
unfoldable pub FromRequests : StateName → Type 0
FromRequests pending_protection = Unit
FromRequests accepted_protection = Unit
FromRequests pending_recovery = Unit
FromRequests rejected_recovery = Unit
FromRequests no_protection = ⊥
FromRequests active_protection = ⊥
FromRequests claimed_recovery = ⊥
FromRequests unavailable_protection = ⊥

abbrev HasTwo : ProtectionState → Type 0
HasTwo s =
    FromRequests s.name
    → (officer1 : String) × (officer2 : String) × (s.holds.selected_legal_officers
        ≡ officer1 ∷ officer2 ∷ [])

-- A result that gives two officers to the states that need them.
record Selects (r : Result ProtectionState) : Type 0 where
  two : (s : ProtectionState) → r ≡ ok s → HasTwo s

AllSelect : List (Bool × Result ProtectionState) → Type 0
AllSelect [] = Unit
AllSelect ((test, result) ∷ cases) = Selects result × AllSelect cases

pub initial_state_chosen :
    (fetched : FetchAllResult) (shared : SharedState) (s : ProtectionState)
    → get_initial_state fetched shared ≡ ok s
    → (state : RecoverySharedState) × (choose_state fetched state ≡ ok s)
unfolding get_initial_state
initial_state_chosen fetched shared s h =
    let (pending, e1, h1) = >>=-eq-ok (to_actionable_requests shared fetched.pending) _ h in
    let (accepted, e2, h2) = >>=-eq-ok (to_actionable_requests shared fetched.accepted) _ h1 in
    let (rejected, e3, h3) = >>=-eq-ok (to_actionable_requests shared fetched.rejected) _ h2 in
    let (cancelled, e4, h4) = >>=-eq-ok (to_actionable_requests shared fetched.cancelled) _ h3 in
    (_, h4)
