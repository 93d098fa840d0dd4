-- ===== src/Calls.antt =====
-- What the client asks of others: requests to the backend of a node, uploads of files, and transactions signed and
-- sent to the chain; with `newBackendError` of packages/client/src/Error.ts. A run keeps the calls
-- that were made, in their order.
pub mod Compensation
pub mod Sequences
use logion_api.Common.{
  ℕ, String, Bool, true, false, Option, none, some, List, [], ◌∷◌, ◌++◌, Result, ok, throw,
}
use logion_api.Common.Texts.{is_empty, template}
use logion_api.Hash.{Hash}

-- the text of a UUID
abbrev pub Uuid : Type 0
Uuid = String

pub data Verb : Type 0 where
  get_request post put delete : Verb

-- the pieces of a URL
pub data Piece : Type 0 where
  lit : String → Piece
  uuid : Uuid → Piece
  hex : Hash → Piece

pub data Field : Type 0 where
  text : String → Field
  flag : Bool → Field
  absent : Field
  hex_text : Hash → Field
  file_entry : String → String → Hash → Field
  terms_entry : String → String → Field
  token_entry : String → String → Field

-- the body of a request, an object of fields; an array is its entries under the name of its field
abbrev pub Body : Type 0
Body = List (String × Field)

-- `T` is what is signed.
pub data Call (T : Type 0) : Type 0 where
  request : Verb → List Piece → Body → Call T
  sign_and_send : String → T → Call T
  upload : List Piece → Hash → Call T

-- `error.response.data`: its errorMessage, or the text that JSON.stringify makes of it
pub data ErrorData : Type 0 where
  error_message : String → ErrorData
  stringified : String → ErrorData

pub record CallError : Type 0 where
  pub message : String
  pub response_data : Option ErrorData

unfoldable pub new_backend_error : CallError → String
new_backend_error error = elim error.response_data [
  | none ↦ error.message
  | some (error_message details) ↦ template (error.message ∷ ": " ∷ details ∷ [])
  | some (stringified details) ↦ template (error.message ∷ ": " ∷ details ∷ [])
]

-- How the others answer: `W` is their state, which nothing is known of.
pub data Outcome : Type 0 where
  done : Outcome
  failed : CallError → Outcome

abbrev pub Outside : Type 0 → Type 0 → Type 0
Outside T W = Call T → W → Outcome × W

abbrev pub Run : Type 0 → Type 0 → Type 0 → Type 0
Run T W A = W → Result A × List (Call T) × W

module _ {T W : Type 0} where
  -- a value that needs no call that changes anything, as the estimation of fees
  abbrev pub reading : {A : Type 0} → (W → Result A) → Run T W A
  reading query w = (query w, [], w)

  and_then :
      {A B : Type 0} → Result A × List (Call T) × W → (A → Run T W B) → Result B × List (Call T) × W
  and_then (throw message, calls, w) after = (throw message, calls, w)
  and_then (ok value, calls, w) after =
      let (result, more, w') = after value w in (result, calls ++ more, w')

  infixl 5 ◌>>=◌ ◌>>◌
  unfoldable pub ◌>>=◌ : {A B : Type 0} → Run T W A → (A → Run T W B) → Run T W B
  unfolding and_then
  ◌>>=◌ first after w = and_then (first w) after

  unfoldable pub ◌>>◌ : {B : Type 0} → Run T W (Unit {0}) → Run T W B → Run T W B
  unfolding ◌>>=◌
  first >> after = first >>= λ _. after

  module _ (outside : Outside T W) where
    answered : (CallError → String) → Call T → Outcome × W → Result (Unit {0}) × List (Call T) × W
    answered message call (done, w) = (ok tt, call ∷ [], w)
    answered message call (failed error, w) = (throw (message error), call ∷ [], w)

    -- a request whose error is passed on by `throw newBackendError(e)`
    unfoldable pub backend : Verb → List Piece → Body → Run T W (Unit {0})
    unfolding answered
    backend verb path body w =
        answered new_backend_error (request verb path body) (outside (request verb path body) w)

    unfoldable pub sign : String → T → Run T W (Unit {0})
    unfolding answered
    sign signer_id submittable w =
        answered (λ error. error.message) (sign_and_send signer_id submittable)
          (outside (sign_and_send signer_id submittable) w)

    -- the upload of a file with this hash
    unfoldable pub uploading : List Piece → Hash → Run T W (Unit {0})
    unfolding answered
    uploading path hash w =
        answered (λ error. error.message) (upload path hash) (outside (upload path hash) w)

  -- what `catch(e) { await cleanup; throw e; }` ends with: an error of the cleanup replaces the one
  -- that was caught
  rethrown :
      String
      → List (Call T)
      → Result (Unit {0}) × List (Call T) × W
      → Result (Unit {0}) × List (Call T) × W
  rethrown message calls (throw message', more, w) = (throw message', calls ++ more, w)
  rethrown message calls (ok _, more, w) = (throw message, calls ++ more, w)

  catching :
      Run T W (Unit {0})
      → Result (Unit {0}) × List (Call T) × W
      → Result (Unit {0}) × List (Call T) × W
  unfolding rethrown
  catching cleanup (ok value, calls, w) = (ok value, calls, w)
  catching cleanup (throw message, calls, w) = rethrown message calls (cleanup w)

  unfoldable pub try_catch : Run T W (Unit {0}) → Run T W (Unit {0}) → Run T W (Unit {0})
  unfolding catching
  try_catch body cleanup w = catching cleanup (body w)

  -- `catch(e) { cleanup; throw e; }`, where the cleanup is not awaited: its error is lost
  ignoring :
      Run T W (Unit {0})
      → Result (Unit {0}) × List (Call T) × W
      → Result (Unit {0}) × List (Call T) × W
  ignoring cleanup (ok value, calls, w) = (ok value, calls, w)
  ignoring cleanup (throw message, calls, w) =
      let (result, more, w') = cleanup w in (throw message, calls ++ more, w')

  unfoldable pub try_catch_unawaited : Run T W (Unit {0}) → Run T W (Unit {0}) → Run T W (Unit {0})
  unfolding ignoring
  try_catch_unawaited body cleanup w = ignoring cleanup (body w)
