-- ===== src/Recovery/Classes.antt =====
-- What a user may do with a request for protection, packages/client/src/Recovery.ts.
use logion_api.Common.{
  ◌≡◌, subst, ok-inj, ◌↔◌, refl, Bool, true, false, not, ◌||◌, ok, if◌then◌else◌, arith, >>=-eq-ok,
}
use logion_api.Recovery.Requests.{
  ActionableRequest, ProtectionRequest, ProtectionRequestStatus, RequestClass, SharedState,
  accepted, accepted_cancelled, activated, cancellable, cancelled, class_of, get_legal_officer,
  has_cancel, has_resubmit, has_update, is_activated, is_cancelled, is_rejected, pending, plain,
  re_submittable, rejected, rejected_cancelled, to_actionable_request, updatable,
  updatable_re_submittable,
}

-- A request is open until it is activated or cancelled.
pub IsOpen : ProtectionRequestStatus → Type 0
IsOpen pending = Unit
IsOpen rejected = Unit
IsOpen accepted = Unit
IsOpen activated = ⊥
IsOpen cancelled = ⊥
IsOpen rejected_cancelled = ⊥
IsOpen accepted_cancelled = ⊥

IsOpen-iff :
    (status : ProtectionRequestStatus)
    → ((is_activated status || is_cancelled status) ≡ false) ↔ IsOpen status
unfolding is_activated is_cancelled IsOpen
IsOpen-iff pending = (λ h. tt, λ h. refl)
IsOpen-iff rejected = (λ h. tt, λ h. refl)
IsOpen-iff accepted = (λ h. tt, λ h. refl)
IsOpen-iff activated = (λ h. cc, λ h. absurd h)
IsOpen-iff cancelled = (λ h. cc, λ h. absurd h)
IsOpen-iff rejected_cancelled = (λ h. cc, λ h. absurd h)
IsOpen-iff accepted_cancelled = (λ h. cc, λ h. absurd h)

rejected_iff :
    (status : ProtectionRequestStatus)
    → (((is_activated status || is_cancelled status) ≡ false) × (is_rejected status ≡ true))
      ↔ (status ≡ rejected)
unfolding is_rejected is_activated is_cancelled
rejected_iff rejected = (λ h. refl, λ h. (refl, refl))
rejected_iff pending = (λ h. cc, λ h. cc)
rejected_iff accepted = (λ h. cc, λ h. cc)
rejected_iff activated = (λ h. cc, λ h. cc)
rejected_iff cancelled = (λ h. cc, λ h. cc)
rejected_iff rejected_cancelled = (λ h. cc, λ h. cc)
rejected_iff accepted_cancelled = (λ h. cc, λ h. cc)

abbrev chosen : Bool → Bool → Bool → RequestClass
chosen closed reject is_recovery =
    if closed
    then plain
    else if reject
    then (if is_recovery then re_submittable else updatable_re_submittable)
    else if not is_recovery
    then updatable
    else cancellable

-- the methods of the chosen class, by the three tests
class_tests :
    (closed reject is_recovery : Bool)
    → ((has_cancel (chosen closed reject is_recovery) ≡ true) ↔ (closed ≡ false))
      × ((has_resubmit (chosen closed reject is_recovery) ≡ true)
          ↔ ((closed ≡ false) × (reject ≡ true)))
      × ((has_update (chosen closed reject is_recovery) ≡ true)
          ↔ ((closed ≡ false) × (is_recovery ≡ false)))
unfolding has_cancel has_resubmit has_update
class_tests true reject is_recovery = ground arith
class_tests false true true = ground arith
class_tests false true false = ground arith
class_tests false false true = ground arith
class_tests false false false = ground arith

abbrev Allowed : ProtectionRequest → ActionableRequest → Type 0
Allowed request actionable =
    (actionable.request ≡ request)
    × ((has_cancel actionable.class ≡ true) ↔ IsOpen request.status)
    × ((has_resubmit actionable.class ≡ true) ↔ (request.status ≡ rejected))
    × ((has_update actionable.class ≡ true)
        ↔ (IsOpen request.status × (request.is_recovery ≡ false)))

class_of-Allowed :
    (request : ProtectionRequest)
    → Allowed request
        (record { request = request; class = class_of request.status request.is_recovery })
unfolding class_of
class_of-Allowed request =
    let (cancel, resubmit, update) =
      class_tests (is_activated request.status || is_cancelled request.status)
        (is_rejected request.status) request.is_recovery in
    let opening = IsOpen-iff request.status in
    (
      refl,
      (λ h. opening.0 (cancel.0 h), λ o. cancel.1 (opening.1 o)),
      (
        λ h. (rejected_iff request.status).0 (resubmit.0 h),
        λ e. resubmit.1 ((rejected_iff request.status).1 e),
      ),
      (
        λ h. let (opened, other) = update.0 h in (opening.0 opened, other),
        λ (o, other). update.1 (opening.1 o, other),
      ),
    )

-- An actionable request can be cancelled exactly while it is open, resubmitted exactly when it was
-- rejected, and updated exactly while it is open and not about a recovery.
pub to_actionable_request-class :
    (shared : SharedState) (request : ProtectionRequest) (actionable : ActionableRequest)
    → to_actionable_request shared request ≡ ok actionable
    → (actionable.request ≡ request)
      × ((has_cancel actionable.class ≡ true) ↔ IsOpen request.status)
      × ((has_resubmit actionable.class ≡ true) ↔ (request.status ≡ rejected))
      × ((has_update actionable.class ≡ true)
          ↔ (IsOpen request.status × (request.is_recovery ≡ false)))
unfolding to_actionable_request
to_actionable_request-class shared request actionable h =
    let (officer, known, h') =
      >>=-eq-ok (get_legal_officer shared request.legal_officer_address) _ h in
    let (client, authenticated, made) = >>=-eq-ok shared.authentication _ h' in
    subst (Allowed request) (ok-inj made) (class_of-Allowed request)
