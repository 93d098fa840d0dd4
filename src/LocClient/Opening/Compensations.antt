-- ===== src/LocClient/Opening/Compensations.antt =====
-- How the opening of a LOC ends, packages/client/src/LocClient.ts.
use logion_api.Common.{◌≡◌, Bool, [], ◌∷◌, Result, ok}
use logion_api.Fees.{Fees}
use logion_api.Calls.{request, sign_and_send, flag, post, delete, Run}
use logion_api.Calls.Compensation.{Compensated, checked}
use logion_api.LocClient.{Submittable, AuthenticatedLocClient}
use logion_api.LocClient.Items.{me, ensure_own_funds}
use logion_api.LocClient.Opening.{OpenPolkadotLocParams, open_path}

-- The opening is posted to the backend, the transaction is the one that the submittable makes, and
-- the cancellation deletes at the same path.
abbrev pub OpeningCompensated :
    {W : Type 0}
    → AuthenticatedLocClient W
    → Bool
    → (W → Result Fees)
    → OpenPolkadotLocParams
    → Result Submittable
    → Run Submittable W (Unit {0})
    → W
    → Type 0
OpeningCompensated client awaited estimate parameters tx run w =
    (submittable : Submittable) × (tx ≡ ok submittable)
    × Compensated client.outside awaited
        (checked client.outside estimate (ensure_own_funds client) w)
        (request post (open_path parameters.loc_id)
          (("autoPublish", flag parameters.auto_publish) ∷ []))
        (sign_and_send (me client) submittable) (request delete (open_path parameters.loc_id) []) w
        (run w).0 (run w).1
