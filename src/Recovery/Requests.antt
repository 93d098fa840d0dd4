-- ===== src/Recovery/Requests.antt =====
-- The requests for protection of packages/client/src/Recovery.ts and what a user may do with them:
-- a request of a backend becomes an object of a class that has the methods allowed by its status.
use logion_api.Common.{
  ◌∷◌, [], String, Bool, true, false, not, ◌||◌, List, Result, ok, ◌>>=◌, ◌>>◌, if◌then◌else◌,
  guard,
}
use logion_api.Common.Texts.{includes, template}

pub data ProtectionRequestStatus : Type 0 where
  pending rejected accepted activated : ProtectionRequestStatus
  cancelled rejected_cancelled accepted_cancelled : ProtectionRequestStatus

pub record ProtectionRequest : Type 0 where
  pub id : String
  pub requester_identity_loc : String
  pub is_recovery : Bool
  -- `null` and the empty text are the same to the code that reads it
  pub address_to_recover : String
  pub status : ProtectionRequestStatus
  pub legal_officer_address : String
  pub other_legal_officer_address : String

-- the class of an actionable request; `plain` is the request as it came
pub data RequestClass : Type 0 where
  plain cancellable updatable re_submittable updatable_re_submittable : RequestClass

-- The classes inherit `cancel` from CancellableRequest, and UpdatableReSubmittableRequest inherits
-- `update` from UpdatableRequest.
unfoldable pub has_cancel : RequestClass → Bool
has_cancel plain = false
has_cancel cancellable = true
has_cancel updatable = true
has_cancel re_submittable = true
has_cancel updatable_re_submittable = true

unfoldable pub has_update : RequestClass → Bool
has_update plain = false
has_update cancellable = false
has_update updatable = true
has_update re_submittable = false
has_update updatable_re_submittable = true

unfoldable pub has_resubmit : RequestClass → Bool
has_resubmit plain = false
has_resubmit cancellable = false
has_resubmit updatable = false
has_resubmit re_submittable = true
has_resubmit updatable_re_submittable = true

pub record ActionableRequest : Type 0 where
  pub request : ProtectionRequest
  pub class : RequestClass

-- the part of the shared state that matters here: the addresses of the known legal officers, and
-- what `authenticatedCurrentAddress` does
pub record SharedState : Type 0 where
  pub legal_officers : List String
  pub authentication : Result (Unit {0})

unfoldable pub get_legal_officer : SharedState → String → Result String
get_legal_officer shared address =
    guard (includes shared.legal_officers address)
      (template ("No legal officer with address " ∷ address ∷ []))
    >> ok address

-- `status.includes("CANCELLED")`
unfoldable pub is_cancelled : ProtectionRequestStatus → Bool
is_cancelled pending = false
is_cancelled rejected = false
is_cancelled accepted = false
is_cancelled activated = false
is_cancelled cancelled = true
is_cancelled rejected_cancelled = true
is_cancelled accepted_cancelled = true

unfoldable pub is_activated : ProtectionRequestStatus → Bool
is_activated activated = true
is_activated pending = false
is_activated rejected = false
is_activated accepted = false
is_activated cancelled = false
is_activated rejected_cancelled = false
is_activated accepted_cancelled = false

unfoldable pub is_rejected : ProtectionRequestStatus → Bool
is_rejected rejected = true
is_rejected pending = false
is_rejected accepted = false
is_rejected activated = false
is_rejected cancelled = false
is_rejected rejected_cancelled = false
is_rejected accepted_cancelled = false

unfoldable pub class_of : ProtectionRequestStatus → Bool → RequestClass
class_of status is_recovery =
    if is_activated status || is_cancelled status
    then plain
    else if is_rejected status
    then (if is_recovery then re_submittable else updatable_re_submittable)
    else if not is_recovery
    then updatable
    else cancellable

unfoldable pub to_actionable_request : SharedState → ProtectionRequest → Result ActionableRequest
to_actionable_request shared request = do
  officer ← get_legal_officer shared request.legal_officer_address
  client ← shared.authentication
  ok (record { request = request; class = class_of request.status request.is_recovery })
