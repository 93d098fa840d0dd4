-- ===== src/Locs.antt =====
-- LocsState and the states of LOCs, packages/client/src/Loc.ts, as state objects of one store: a
-- LOC refers to the LocsState that holds it, and a LocsState to its LOCs.
pub mod Cells
pub mod Living
pub mod Rehoming
pub mod Readiness
pub mod Refreshing
use logion_api.Common.{
  ℕ, zero, suc, String, Bool, true, false, ◌&&◌, ◌||◌, Option, none, some, List, [], ◌∷◌, length,
  get_elem?, set, Result, ok, throw, if◌then◌else◌, not,
}
use logion_api.Common.Texts.{property}
use logion_api.Http.{put}
use logion_api.State.{Cell, Method, new_state, get_current_state_or_throw, discard_on_success}
use logion_api.State
use logion_api.Fees.Estimator.{LocType, transaction, identity, collection}
use logion_api.Calls.{Uuid}
use logion_api.LocClient.{ValidAccountId}
use logion_api.Loc.{
  LocRequest, LegalOfficerCase, LocVerifiedIssuers, LocRequestStatus, open_status, closed_status,
}
use logion_api.Loc.Closing.{is_set}
use text.Mathlib.Text.{◌==◌}

-- The subclasses of LocRequestState that a LocsState holds.
pub data LocClass : Type 0 where
  draft_request pending_request accepted_request rejected_request : LocClass
  open_loc closed_loc closed_collection_loc voided_loc voided_collection_loc : LocClass

-- class LocRequestState; `locs_state` is the one of its LocSharedState
pub record LocRequestState : Type 0 where
  pub loc_class : LocClass
  pub locs_state : ℕ
  pub request : LocRequest
  pub legal_officer_case : Option LegalOfficerCase
  pub loc_issuers : LocVerifiedIssuers
  pub invited_contributors : List ValidAccountId

-- Record<string, LocRequestState>
abbrev pub Locs : Type 0
Locs = List (String × ℕ)

pub record LocsState : Type 0 where
  pub locs : Locs
  pub verified_issuer_locs : Locs

pub data Content : Type 0 where
  of_loc : LocRequestState → Content
  of_locs : LocsState → Content

abbrev pub Objects : Type 0
Objects = State.Store Content

unfoldable pub content_loc : Content → Option LocRequestState
content_loc (of_loc state) = some state
content_loc (of_locs state) = none

unfoldable pub content_locs : Content → Option LocsState
content_locs (of_loc state) = none
content_locs (of_locs state) = some state

-- the LOC behind a reference, and the LocsState
unfoldable pub loc_at : Objects → ℕ → Option LocRequestState
loc_at s i = elim (get_elem? s i) [ none ↦ none | some c ↦ content_loc c.content ]

unfoldable pub locs_at : Objects → ℕ → Option LocsState
locs_at s i = elim (get_elem? s i) [ none ↦ none | some c ↦ content_locs c.content ]

-- what the types of the source exclude
abbrev pub wrong_class : {A : Type 0} → Result A
wrong_class = throw "Not an object of this class"

unfoldable pub and_then :
    {A B : Type 0} → Result A × Objects → (A → Method Content B) → Result B × Objects
and_then (throw message, s) after = (throw message, s)
and_then (ok value, s) after = after value s

infixl 5 ◌>>=◌
abbrev pub ◌>>=◌ : {A B : Type 0} → Method Content A → (A → Method Content B) → Method Content B
◌>>=◌ first after s = and_then (first s) after

-- `syncDiscardOnSuccess` and `discardOnSuccess`, with fuel for the whole store
unfoldable pub replace_current : (ℕ → Method Content ℕ) → ℕ → Method Content ℕ
replace_current action i s = elim (discard_on_success (suc (length s)) action i s) [
  | none ↦ (throw "No fuel", s)
  | some result ↦ result
]

-- the action of `_withLocs`: a new object of the class, with the data of the current state
unfoldable pub copy_with : ℕ → LocClass → ℕ → Method Content ℕ
copy_with locs_state loc_class current s = elim (loc_at s current) [
  | none ↦ (wrong_class, s)
  | some state ↦
      new_state (of_loc (record state { loc_class = loc_class; locs_state = locs_state })) s
]

-- `withLocs`, which each subclass overrides with its own class
unfoldable pub with_locs : ℕ → ℕ → Method Content ℕ
with_locs locs_state i s = elim (loc_at s i) [
  | none ↦ (wrong_class, s)
  | some state ↦ replace_current (copy_with locs_state state.loc_class) i s
]

unfoldable pub refresh_states : ℕ → Locs → Method Content Locs
refresh_states locs_state [] = λ s. (ok [], s)
refresh_states locs_state ((loc_id, state) ∷ states) = with_locs locs_state state >>= λ refreshed.
    refresh_states locs_state states >>= λ rest. λ s. (ok ((loc_id, refreshed) ∷ rest), s)

-- an assignment to the fields of a LocsState
unfoldable pub set_locs : ℕ → LocsState → Method Content ℕ
set_locs i state s = elim (get_elem? s i) [
  | none ↦ (wrong_class, s)
  | some c ↦ (ok i, set s i (record c { content = of_locs state }))
]

unfoldable pub read_locs : ℕ → Method Content LocsState
read_locs i s = elim (locs_at s i) [ none ↦ (wrong_class, s) | some state ↦ (ok state, s) ]

unfoldable pub read_loc : ℕ → Method Content LocRequestState
read_loc i s = elim (loc_at s i) [ none ↦ (wrong_class, s) | some state ↦ (ok state, s) ]

-- `new UUID(request.id).toString()`, for the id of a request
module _ (uuid_text : String → Uuid) where
  unfoldable pub key_of : LocRequestState → Uuid
  key_of state = uuid_text state.request.id

  unfoldable pub is_verified_issuer_loc : LocsState → LocRequestState → Bool
  is_verified_issuer_loc state added = is_set (property state.verified_issuer_locs (key_of added))

  -- the maps of the LocsState that is made
  unfoldable pub placed : LocsState → LocRequestState → ℕ → Locs → Locs → LocsState
  placed this added_loc refreshed refreshed_locs refreshed_issuer_locs =
      if is_verified_issuer_loc this added_loc
      then record {
        locs = refreshed_locs;
        verified_issuer_locs = put (key_of added_loc) refreshed refreshed_issuer_locs;
      }
      else record {
        locs = put (key_of added_loc) refreshed refreshed_locs;
        verified_issuer_locs = refreshed_issuer_locs;
      }

  -- `_refreshWith` of the current state
  unfoldable pub refresh_current_with : ℕ → ℕ → Method Content ℕ
  refresh_current_with added current = read_locs current >>= λ this. read_loc added >>= λ added_loc.
      new_state (of_locs (record { locs = []; verified_issuer_locs = [] })) >>= λ next.
      refresh_states next this.locs >>= λ refreshed_locs.
      refresh_states next this.verified_issuer_locs >>= λ refreshed_issuer_locs.
      with_locs next added >>= λ refreshed.
      set_locs next (placed this added_loc refreshed refreshed_locs refreshed_issuer_locs)

  unfoldable pub refresh_with : ℕ → ℕ → Method Content ℕ
  refresh_with added i = replace_current (refresh_current_with added) i

-- `delete locs[key]`
unfoldable pub remove : Uuid → Locs → Locs
remove key [] = []
remove key ((k, state) ∷ locs) = if k == key then remove key locs else (k, state) ∷ remove key locs

unfoldable pub refresh_current_without : Uuid → ℕ → Method Content ℕ
refresh_current_without loc_id current = read_locs current >>= λ this. new_state (
    of_locs (record {
      locs = remove loc_id this.locs;
      verified_issuer_locs = remove loc_id this.verified_issuer_locs;
    }))

unfoldable pub refresh_without : Uuid → ℕ → Method Content ℕ
refresh_without loc_id i = replace_current (refresh_current_without loc_id) i

-- `findByIdOrUndefined`
unfoldable pub find_by_id_or_undefined : LocsState → Uuid → Option ℕ
find_by_id_or_undefined state loc_id = elim (property state.locs loc_id) [
  | some found ↦ some found
  | none ↦ property state.verified_issuer_locs loc_id
]

unfoldable pub find_by_id : LocsState → Uuid → Result ℕ
find_by_id state loc_id = elim (find_by_id_or_undefined state loc_id) [
  | some found ↦ ok found
  | none ↦ throw "LOC not found"
]
