-- ===== src/LocClient/Lifecycle/Endings.antt =====
-- How the acceptance, the closing and the voiding of a LOC end, packages/client/src/LocClient.ts.
use logion_api.Common.{
  ◌≡◌, String, Bool, true, false, Option, none, some, List, [], ◌∷◌, Result, ok, throw,
}
use logion_api.Calls.{
  Uuid, Call, request, sign_and_send, text, flag, post, delete, done, failed, CallError,
}
use logion_api.Calls.Compensation.{Compensated, checked, submission-Compensated}
use logion_api.LocClient.{Submittable, close, AuthenticatedLocClient}
use logion_api.LocClient.Items.{me, ensure_own_funds, estimate_inclusion}
use logion_api.LocClient.Lifecycle.{
  loc_path, seal_or_null, close_query, void_submittable, accept_loc, close_loc, void_loc,
}

module _ {W : Type 0} (client : AuthenticatedLocClient W) where
  -- Closing or voiding a LOC: nothing is asked of the backend when the fees cannot be estimated or
  -- paid; then it is posted to the backend, and the transaction is signed; exactly when that fails
  -- what was posted is deleted, and the error is passed on, or the one of the deletion if that fails
  -- too.
  pub endings-Compensated :
      (loc_id : Uuid) (seal : Option String) (auto_ack : Bool) (replacer : Option Uuid)
      (reason : String) (w : W)
      → Compensated client.outside true
          (checked client.outside
            (estimate_inclusion client (close loc_id (seal_or_null seal) auto_ack))
            (ensure_own_funds client)
            w)
          (request post (loc_path loc_id "/close") (("autoAck", flag auto_ack) ∷ []))
          (sign_and_send (me client) (close loc_id (seal_or_null seal) auto_ack))
          (request delete (loc_path loc_id (close_query auto_ack)) [])
          w
          (close_loc client loc_id seal auto_ack w).0
          (close_loc client loc_id seal auto_ack w).1
        × Compensated client.outside true
            (checked client.outside
              (estimate_inclusion client (void_submittable loc_id replacer))
              (ensure_own_funds client)
              w)
            (request post (loc_path loc_id "/void") (("reason", text reason) ∷ []))
            (sign_and_send (me client) (void_submittable loc_id replacer))
            (request delete (loc_path loc_id "/void") [])
            w
            (void_loc client loc_id replacer reason w).0
            (void_loc client loc_id replacer reason w).1
  unfolding close_loc void_loc
  endings-Compensated loc_id seal auto_ack replacer reason w = (
    submission-Compensated client.outside _ (ensure_own_funds client) post delete _ _ _ _ _ _ w,
    submission-Compensated client.outside _ (ensure_own_funds client) post delete _ _ _ _ _ _ w,
  )

-- How an acceptance ends: the backend is told of it exactly when the transaction that the requester
-- asks for, if any, was signed and sent.
pub data Acceptance {W : Type 0} (client : AuthenticatedLocClient W) (loc_id : Uuid)
    (has_signer : Bool) (tx : Result (Option Submittable)) (w : W) (result : Result (Unit {0}))
    (calls : List (Call Submittable)) : Type 0 where
  refused :
      (message : String)
      → tx ≡ throw message
      → result ≡ throw message
      → calls ≡ []
      → Acceptance client loc_id has_signer tx w result calls
  unsigned :
      (submittable : Submittable)
      → tx ≡ ok (some submittable)
      → has_signer ≡ false
      → result ≡ throw "Value is undefined"
      → calls ≡ []
      → Acceptance client loc_id has_signer tx w result calls
  unsent :
      (submittable : Submittable) (error : CallError) (w₁ : W)
      → tx ≡ ok (some submittable)
      → has_signer ≡ true
      → client.outside (sign_and_send (me client) submittable) w ≡ (failed error, w₁)
      → result ≡ throw error.message
      → calls ≡ sign_and_send (me client) submittable ∷ []
      → Acceptance client loc_id has_signer tx w result calls
  sent :
      (submittable : Submittable) (w₁ : W)
      → tx ≡ ok (some submittable)
      → has_signer ≡ true
      → client.outside (sign_and_send (me client) submittable) w ≡ (done, w₁)
      → result ≡ (accept_loc client loc_id w₁).0
      → calls
        ≡ sign_and_send (me client) submittable ∷ request post (loc_path loc_id "/accept") [] ∷ []
      → Acceptance client loc_id has_signer tx w result calls
  accepted :
      tx ≡ ok none
      → result ≡ (accept_loc client loc_id w).0
      → calls ≡ request post (loc_path loc_id "/accept") [] ∷ []
      → Acceptance client loc_id has_signer tx w result calls
