-- ===== src/Loc/Closing.antt =====
-- The conditions to close a LOC, LegalOfficerOpenRequestCommands of packages/client/src/Loc.ts.
pub mod Conditions
use logion_api.Common.{
  ℕ, String, Bool, true, false, not, ◌&&◌, ◌||◌, Option, none, some, List, Result, ok, throw, ◌==◌,
  if◌then◌else◌, guard,
}
use logion_api.Calls.{Uuid, Run, reading, ◌>>=◌, ◌>>◌}
use logion_api.LocClient.{
  AccountType, polkadot, ethereum, bech32, ValidAccountId, Submittable, AuthenticatedLocClient,
}
use logion_api.LocClient.Lifecycle.{close_loc}
use logion_api.Loc.{
  ItemStatus, VerifiedIssuer, LocVerifiedIssuers, ItemLifecycle, MergedLink, MergedFile,
  MergedMetadataItem, LocData,
}
use logion_api.Loc
use logion_api.Loc.Merging.{find}
use text.Mathlib.Text

-- `a === b`, for statuses and for types of accounts, by their places
unfoldable pub status_index : ItemStatus → ℕ
status_index ItemStatus.draft = 0
status_index ItemStatus.review_pending = 1
status_index ItemStatus.review_accepted = 2
status_index ItemStatus.review_rejected = 3
status_index ItemStatus.published = 4
status_index ItemStatus.acknowledged = 5

unfoldable pub same_status : ItemStatus → ItemStatus → Bool
same_status a b = status_index a == status_index b

unfoldable pub is_polkadot : AccountType → Bool
is_polkadot polkadot = true
is_polkadot ethereum = false
is_polkadot bech32 = false

unfoldable pub is_set : {A : Type 0} → Option A → Bool
is_set none = false
is_set (some a) = true

-- `isVerifiedIssuer(account)` of LocRequestState
unfoldable pub is_verified_issuer : LocVerifiedIssuers → ValidAccountId → Bool
is_verified_issuer loc_issuers account =
    is_polkadot account.type
    && is_set (
        find (λ (issuer : VerifiedIssuer). Text.◌==◌ issuer.address account.address)
          loc_issuers.issuers)

unfoldable pub is_acknowledged_on_chain : LocVerifiedIssuers → ItemLifecycle → ValidAccountId → Bool
is_acknowledged_on_chain loc_issuers item submitter =
    same_status item.status ItemStatus.acknowledged
    && ((is_verified_issuer loc_issuers submitter
          && (is_set item.acknowledged_by_owner_on
              && is_set item.acknowledged_by_verified_issuer_on))
        || (not (is_verified_issuer loc_issuers submitter) && is_set item.acknowledged_by_owner_on))

unfoldable pub is_published_on_chain : ItemLifecycle → Bool
is_published_on_chain item = same_status item.status ItemStatus.published && is_set item.added_on

unfoldable pub is_ready_for_auto_ack : LocVerifiedIssuers → ItemLifecycle → ValidAccountId → Bool
is_ready_for_auto_ack loc_issuers item submitter =
    is_acknowledged_on_chain loc_issuers item submitter
    || (is_published_on_chain item
        && (not (is_verified_issuer loc_issuers submitter)
            || is_set item.acknowledged_by_verified_issuer_on))

-- `isNoItem`, which tests the fields that all items have
unfoldable pub is_no_item : (ItemLifecycle → ValidAccountId → Bool) → LocData → Bool
is_no_item predicate loc =
    not (is_set (find (λ (file : MergedFile). predicate file.lifecycle file.submitter) loc.files))
    && (not (
          is_set (
            find (λ (item : MergedMetadataItem). predicate item.lifecycle item.submitter)
              loc.metadata))
        && not (
            is_set
              (find (λ (link : MergedLink). predicate link.lifecycle link.submitter) loc.links)))

unfoldable pub can_auto_ack : LocVerifiedIssuers → LocData → Bool
can_auto_ack loc_issuers loc =
    is_no_item (λ item submitter. not (is_ready_for_auto_ack loc_issuers item submitter)) loc

unfoldable pub is_all_items_acknowledged : LocVerifiedIssuers → LocData → Bool
is_all_items_acknowledged loc_issuers loc =
    is_no_item (λ item submitter. not (is_acknowledged_on_chain loc_issuers item submitter)) loc

unfoldable pub can_close : LocVerifiedIssuers → LocData → Bool → Bool
can_close loc_issuers loc auto_ack =
    if auto_ack then can_auto_ack loc_issuers loc else is_all_items_acknowledged loc_issuers loc

-- the error of `ensureCanClose`
unfoldable pub cannot_close : Bool → String
cannot_close auto_ack =
    if auto_ack
    then "Cannot close, all items must have been published and acked by Verified Issuer (if relevant)"
    else "Cannot close, all items must have been published."

unfoldable pub ensure_can_close : LocVerifiedIssuers → LocData → Bool → Result (Unit {0})
ensure_can_close loc_issuers loc auto_ack =
    if can_close loc_issuers loc auto_ack then ok tt else throw (cannot_close auto_ack)

-- `close` of the commands, up to the refresh of the LOC
unfoldable pub close_open_loc :
    {W : Type 0}
    → AuthenticatedLocClient W
    → LocVerifiedIssuers
    → LocData
    → Bool
    → Run Submittable W (Unit {0})
close_open_loc client loc_issuers loc auto_ack =
    reading (λ w. ensure_can_close loc_issuers loc auto_ack)
    >> close_loc client loc.id loc.seal auto_ack
