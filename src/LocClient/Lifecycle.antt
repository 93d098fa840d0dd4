-- ===== src/LocClient/Lifecycle.antt =====
-- The acceptance, the closing and the voiding of a LOC by its owner, in AuthenticatedLocClient of
-- packages/client/src/LocClient.ts.
pub mod Endings
use logion_api.Common.{
  String, Bool, true, false, Option, none, some, List, [], ◌∷◌, Result, ok, throw, if◌then◌else◌,
}
use logion_api.Common
use logion_api.Common.Texts.{is_empty}
use logion_api.Currency.{Lgnt}
use logion_api.Fees.{Fees}
use logion_api.Fees.Estimator.{identity, get_default_legal_fee}
use logion_api.Calls.{
  Uuid, Piece, lit, uuid, text, flag, post, delete, Run, reading, ◌>>=◌, ◌>>◌, backend, sign,
  try_catch,
}
use logion_api.LocClient.{
  ValidAccountId, polkadot, ethereum, bech32, Submittable, create_logion_transaction_loc,
  create_logion_identity_loc, create_other_identity_loc, close, make_void, make_void_and_replace,
  AuthenticatedLocClient,
}
use logion_api.LocClient.Items.{me, ensure_own_funds, estimate_inclusion}

-- a path below the one of a LOC request
abbrev pub loc_path : Uuid → String → List Piece
loc_path loc_id last = lit "/api/loc-request/" ∷ uuid loc_id ∷ lit last ∷ []

-- `seal || null`
unfoldable pub seal_or_null : Option String → Option String
seal_or_null none = none
seal_or_null (some seal) = if is_empty seal then none else some seal

abbrev pub close_query : Bool → String
close_query auto_ack = if auto_ack then "/close?autoAck=true" else "/close?autoAck=false"

-- acceptTransactionLocSubmittable: with an account as requester, no transaction is made
unfoldable pub accept_transaction_loc_submittable :
    Uuid → Option ValidAccountId → Option Uuid → Result (Option Submittable)
accept_transaction_loc_submittable loc_id (some account) requester_loc = ok none
accept_transaction_loc_submittable loc_id none (some requester_loc) =
    ok (some (create_logion_transaction_loc loc_id requester_loc))
accept_transaction_loc_submittable loc_id none none = throw "No requester provided"

-- the branch of an account that is no Polkadot account
unfoldable pub other_identity_loc :
    Uuid → ValidAccountId → Option Uuid → Result (Option Submittable)
other_identity_loc loc_id account none =
    throw "Other Identity LOCs can only be created with a sponsorship"
other_identity_loc loc_id account (some sponsorship_id) =
    Common.◌>>=◌ (get_default_legal_fee identity)
      (λ legal_fee. ok (some (create_other_identity_loc loc_id account sponsorship_id legal_fee)))

unfoldable pub accept_identity_loc_submittable :
    Uuid → Option ValidAccountId → Option Uuid → Result (Option Submittable)
accept_identity_loc_submittable loc_id none sponsorship_id =
    ok (some (create_logion_identity_loc loc_id))
accept_identity_loc_submittable loc_id (some account) sponsorship_id = elim account.type [
  | polkadot ↦ ok none
  | ethereum ↦ other_identity_loc loc_id account sponsorship_id
  | bech32 ↦ other_identity_loc loc_id account sponsorship_id
]

unfoldable pub void_submittable : Uuid → Option Uuid → Submittable
void_submittable loc_id none = make_void loc_id
void_submittable loc_id (some replacer) = make_void_and_replace loc_id replacer

module _ {W : Type 0} (client : AuthenticatedLocClient W) where
  unfoldable pub accept_loc : Uuid → Run Submittable W (Unit {0})
  accept_loc loc_id = backend client.outside post (loc_path loc_id "/accept") []

  -- `if(submittable)`: the signer is required, and the transaction is signed
  unfoldable pub sign_if : Bool → Option Submittable → Run Submittable W (Unit {0})
  sign_if has_signer none = reading (λ w. ok tt)
  sign_if has_signer (some submittable) =
      if has_signer
      then sign client.outside (me client) submittable
      else reading (λ w. throw "Value is undefined")

  unfoldable pub accept_transaction_loc :
      Uuid → Option ValidAccountId → Option Uuid → Bool → Run Submittable W (Unit {0})
  accept_transaction_loc loc_id requester_account requester_loc has_signer = do
    submittable ←
        reading (λ w. accept_transaction_loc_submittable loc_id requester_account requester_loc)
    sign_if has_signer submittable
    accept_loc loc_id

  unfoldable pub accept_identity_loc :
      Uuid → Option ValidAccountId → Option Uuid → Bool → Run Submittable W (Unit {0})
  accept_identity_loc loc_id requester_account sponsorship_id has_signer = do
    submittable ←
        reading (λ w. accept_identity_loc_submittable loc_id requester_account sponsorship_id)
    sign_if has_signer submittable
    accept_loc loc_id

  unfoldable pub accept_collection_loc : Uuid → Run Submittable W (Unit {0})
  accept_collection_loc loc_id = accept_loc loc_id

  unfoldable pub reject_loc : Uuid → String → Run Submittable W (Unit {0})
  reject_loc loc_id reason =
      backend client.outside post (loc_path loc_id "/reject") (("rejectReason", text reason) ∷ [])

  -- `close` of AuthenticatedLocClient
  unfoldable pub close_loc : Uuid → Option String → Bool → Run Submittable W (Unit {0})
  close_loc loc_id seal auto_ack = do
    fees ← reading (estimate_inclusion client (close loc_id (seal_or_null seal) auto_ack))
    reading (ensure_own_funds client fees)
    backend client.outside post (loc_path loc_id "/close") (("autoAck", flag auto_ack) ∷ [])
    try_catch (sign client.outside (me client) (close loc_id (seal_or_null seal) auto_ack))
        (backend client.outside delete (loc_path loc_id (close_query auto_ack)) [])

  unfoldable pub void_loc : Uuid → Option Uuid → String → Run Submittable W (Unit {0})
  void_loc loc_id replacer reason = do
    fees ← reading (estimate_inclusion client (void_submittable loc_id replacer))
    reading (ensure_own_funds client fees)
    backend client.outside post (loc_path loc_id "/void") (("reason", text reason) ∷ [])
    try_catch (sign client.outside (me client) (void_submittable loc_id replacer))
        (backend client.outside delete (loc_path loc_id "/void") [])
