-- ===== src/LocClient/Submissions/Items.antt =====
-- How the submission of collection items ends, packages/client/src/LocClient.ts.
use logion_api.Common.{◌≡◌, String, List, ◌∷◌, ◌++◌, map, Result, throw, All2}
use logion_api.Calls.{
  Call, sign_and_send, CallError, done, failed, Run, reading, ◌>>=◌, ◌>>◌, sign, try_catch,
}
use logion_api.Calls.Sequences.{Begun, Each}
use logion_api.LocClient.{ItemTx, Submittable, AuthenticatedLocClient}
use logion_api.LocClient.Items.{me}
use logion_api.LocClient.Submissions.{
  AddCollectionItemParams, Tools, batch_all, cancel_items, upload_items,
}
use logion_api.LocClient.Submissions.Steps.{IsPost, IsDeletion, IsUpload}

-- How the submission of items ends. Items are posted one after the other; when the preparation of
-- one fails nothing is signed, and what was posted is not deleted. After the transaction of all of
-- them, all are deleted if it has failed, and the files are uploaded if not.
pub data Submission {W : Type 0} (client : AuthenticatedLocClient W)
    (payload : List AddCollectionItemParams) (result : Result (Unit {0}))
    (calls : List (Call Submittable)) : Type 0 where
  given_up :
      (message : String)
      → result ≡ throw message
      → Begun IsPost payload calls
      → Submission client payload result calls
  cancelled :
      (tx : Submittable) (error : CallError) (w₁ w₂ : W) (posts deletions : List (Call Submittable))
      → client.outside (sign_and_send (me client) tx) w₁ ≡ (failed error, w₂)
      → result ≡ throw error.message
      → calls ≡ posts ++ sign_and_send (me client) tx ∷ deletions
      → All2 IsPost payload posts
      → All2 IsDeletion payload deletions
      → Submission client payload result calls
  uncancelled :
      (tx : Submittable) (message : String) (error : CallError) (w₁ w₂ : W)
      (posts deletions : List (Call Submittable))
      → client.outside (sign_and_send (me client) tx) w₁ ≡ (failed error, w₂)
      → result ≡ throw message
      → calls ≡ posts ++ sign_and_send (me client) tx ∷ deletions
      → All2 IsPost payload posts
      → Begun IsDeletion payload deletions
      → Submission client payload result calls
  sent :
      (tx : Submittable) (w₁ w₂ : W) (posts uploads : List (Call Submittable))
      → client.outside (sign_and_send (me client) tx) w₁ ≡ (done, w₂)
      → calls ≡ posts ++ sign_and_send (me client) tx ∷ uploads
      → All2 IsPost payload posts
      → Each IsUpload uploads
      → Submission client payload result calls

module _ {W : Type 0} (client : AuthenticatedLocClient W) (tools : Tools)
    (payload : List AddCollectionItemParams) where
  -- what follows the preparation
  abbrev rest : List (AddCollectionItemParams × ItemTx) → Run Submittable W (Unit {0})
  rest items =
      try_catch
        (reading (λ w. batch_all (map (λ (item : AddCollectionItemParams × ItemTx). item.1) items))
          >>= sign client.outside (me client))
        (cancel_items client tools payload)
      >> upload_items client tools items
