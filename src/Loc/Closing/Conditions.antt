-- ===== src/Loc/Closing/Conditions.antt =====
-- When a LOC can be closed, packages/client/src/Loc.ts.
use logion_api.Common.{
  ℕ, ◌≡◌, ◌≢◌, ◌↔◌, ◌⊎◌, inl, inr, refl, sym, ap, ◌∙◌, Bool, true, false, not, ◌&&◌, ◌||◌, Option,
  none, some, List, [], throw, In, Bool-cases, ◌==◌, and_iff, ==_iff, if◌then◌else◌, arith,
}
use logion_api.Calls.{◌>>◌, ◌>>=◌}
use logion_api.LocClient.{ValidAccountId, AuthenticatedLocClient}
use logion_api.LocClient.Lifecycle.{close_loc}
use logion_api.Loc.{
  ItemStatus, LocVerifiedIssuers, ItemLifecycle, MergedLink, MergedFile, MergedMetadataItem,
  LocData,
}
use logion_api.Loc.Merging.{find}
use logion_api.Loc.Data.Backing.{find-cases}
use logion_api.Loc.Closing.{
  status_index, same_status, is_set, is_verified_issuer, is_acknowledged_on_chain,
  is_published_on_chain, is_ready_for_auto_ack, is_no_item, can_auto_ack, is_all_items_acknowledged,
  can_close, ensure_can_close, cannot_close, close_open_loc,
}

-- what every item has
pub HasAll : (ItemLifecycle → ValidAccountId → Type 0) → LocData → Type 0
HasAll P loc =
    ((file : MergedFile) → In file loc.files → P file.lifecycle file.submitter)
    × ((item : MergedMetadataItem) → In item loc.metadata → P item.lifecycle item.submitter)
    × ((link : MergedLink) → In link loc.links → P link.lifecycle link.submitter)

-- the owner has acknowledged the item, and the verified issuer too, if one submitted it
pub record IsAcknowledged (loc_issuers : LocVerifiedIssuers) (item : ItemLifecycle)
    (submitter : ValidAccountId) : Type 0 where
  pub status : item.status ≡ ItemStatus.acknowledged
  pub owner : item.acknowledged_by_owner_on ≢ none
  pub issuer :
      is_verified_issuer loc_issuers submitter ≡ true
      → item.acknowledged_by_verified_issuer_on ≢ none

-- the item is published, and acknowledged by the verified issuer, if one submitted it
pub record IsPublished (loc_issuers : LocVerifiedIssuers) (item : ItemLifecycle)
    (submitter : ValidAccountId) : Type 0 where
  pub status : item.status ≡ ItemStatus.published
  pub added : item.added_on ≢ none
  pub issuer :
      is_verified_issuer loc_issuers submitter ≡ true
      → item.acknowledged_by_verified_issuer_on ≢ none

true_of_not : (b : Bool) → not b ≡ false → b ≡ true
true_of_not true h = refl
true_of_not false h = cc

or_iff : (a b : Bool) → ((a || b) ≡ true) ↔ ((a ≡ true) ⊎ (b ≡ true))
or_iff a b = ground arith

-- the dates that are asked for, with or without a verified issuer
asked_iff :
    (issuer by_owner by_issuer : Bool)
    → (((issuer && (by_owner && by_issuer)) || (not issuer && by_owner)) ≡ true)
      ↔ ((by_owner ≡ true) × (issuer ≡ true → by_issuer ≡ true))
asked_iff issuer by_owner by_issuer = ground arith

implied_iff :
    (issuer by_issuer : Bool)
    → ((not issuer || by_issuer) ≡ true) ↔ (issuer ≡ true → by_issuer ≡ true)
implied_iff issuer by_issuer = ground arith

status_of : ℕ → ItemStatus
status_of n =
    if n == 0
    then ItemStatus.draft
    else if n == 1
    then ItemStatus.review_pending
    else if n == 2
    then ItemStatus.review_accepted
    else if n == 3
    then ItemStatus.review_rejected
    else if n == 4
    then ItemStatus.published
    else ItemStatus.acknowledged

status_of-status_index : (a : ItemStatus) → status_of (status_index a) ≡ a
unfolding status_index status_of
status_of-status_index ItemStatus.draft = refl
status_of-status_index ItemStatus.review_pending = refl
status_of-status_index ItemStatus.review_accepted = refl
status_of-status_index ItemStatus.review_rejected = refl
status_of-status_index ItemStatus.published = refl
status_of-status_index ItemStatus.acknowledged = refl

pub same_status_iff : (a b : ItemStatus) → (same_status a b ≡ true) ↔ (a ≡ b)
unfolding same_status
same_status_iff a b = (
  (λ h.
      sym (status_of-status_index a)
      ∙ ap status_of ((==_iff (status_index a) (status_index b)).0 h)
      ∙ status_of-status_index b),
  (λ e. (==_iff (status_index a) (status_index b)).1 (ap status_index e)),
)

is_set_iff : {A : Type 0} (o : Option A) → (is_set o ≡ true) ↔ (o ≢ none)
unfolding is_set
is_set_iff none = ((λ h. cc), (λ h. absurd (h refl)))
is_set_iff (some a) = ((λ h e. cc), (λ h. refl))

is_set-find_iff :
    {A : Type 0} (test : A → Bool) (xs : List A)
    → (not (is_set (find (λ x. not (test x)) xs)) ≡ true) ↔ ((x : A) → In x xs → test x ≡ true)
unfolding is_set
is_set-find_iff test xs = elim (find-cases (λ x. not (test x)) xs) [
  | inl (x, i, fails, found) ↦ (
    (λ h. absurd (let e : not (is_set (some x)) ≡ true = rw (found, is_set) at h in cc)),
    (λ all. absurd (let e : not true ≡ true = rw (all x i) at fails in cc)),
  )
  | inr (never, missing) ↦
      ((λ h x i. true_of_not (test x) (never x i)), (λ all. rw (missing, is_set)))
]

module _ (loc_issuers : LocVerifiedIssuers) (item : ItemLifecycle)
    (submitter : ValidAccountId) where
  is_acknowledged_on_chain_iff :
      (is_acknowledged_on_chain loc_issuers item submitter ≡ true)
      ↔ IsAcknowledged loc_issuers item submitter
  unfolding is_acknowledged_on_chain
  is_acknowledged_on_chain_iff = (
    (λ h.
        let (status, dates) = (and_iff (same_status item.status ItemStatus.acknowledged) _).0 h in
        let (owner, issuer) = (asked_iff (is_verified_issuer loc_issuers submitter) _ _).0 dates in
        record {
          status = (same_status_iff _ _).0 status;
          owner = (is_set_iff item.acknowledged_by_owner_on).0 owner;
          issuer = λ v. (is_set_iff item.acknowledged_by_verified_issuer_on).0 (issuer v);
        }),
    (λ a. (and_iff (same_status item.status ItemStatus.acknowledged) _).1 (
      (same_status_iff _ _).1 a.status,
      (asked_iff (is_verified_issuer loc_issuers submitter) _ _).1 (
        (is_set_iff item.acknowledged_by_owner_on).1 a.owner,
        λ v. (is_set_iff item.acknowledged_by_verified_issuer_on).1 (a.issuer v),
      ),
    )),
  )

  is_published_on_chain_iff :
      ((is_published_on_chain item
          && (not (is_verified_issuer loc_issuers submitter)
              || is_set item.acknowledged_by_verified_issuer_on))
        ≡ true)
      ↔ IsPublished loc_issuers item submitter
  unfolding is_published_on_chain
  is_published_on_chain_iff = (
    (λ h.
        let (published, issuer) =
          (and_iff (same_status item.status ItemStatus.published && is_set item.added_on) _).0 h in
        let (status, added) =
          (and_iff (same_status item.status ItemStatus.published) (is_set item.added_on)).0
            published in
        record {
          status = (same_status_iff _ _).0 status;
          added = (is_set_iff item.added_on).0 added;
          issuer = λ v.
              (is_set_iff item.acknowledged_by_verified_issuer_on).0
                ((implied_iff (is_verified_issuer loc_issuers submitter) _).0 issuer v);
        }),
    (λ p. (and_iff (same_status item.status ItemStatus.published && is_set item.added_on) _).1 (
      (and_iff (same_status item.status ItemStatus.published) (is_set item.added_on)).1
          ((same_status_iff _ _).1 p.status, (is_set_iff item.added_on).1 p.added),
      (implied_iff (is_verified_issuer loc_issuers submitter) _).1
          (λ v. (is_set_iff item.acknowledged_by_verified_issuer_on).1 (p.issuer v)),
    )),
  )

ready_iff :
    (loc_issuers : LocVerifiedIssuers) (item : ItemLifecycle) (submitter : ValidAccountId)
    → (is_ready_for_auto_ack loc_issuers item submitter ≡ true)
      ↔ (IsAcknowledged loc_issuers item submitter ⊎ IsPublished loc_issuers item submitter)
unfolding is_ready_for_auto_ack
ready_iff loc_issuers item submitter =
    let acknowledged = is_acknowledged_on_chain_iff loc_issuers item submitter in
    let published = is_published_on_chain_iff loc_issuers item submitter in
    (
      (λ h. elim ((or_iff (is_acknowledged_on_chain loc_issuers item submitter) _).0 h) [
        | inl a ↦ inl (acknowledged.0 a)
        | inr p ↦ inr (published.0 p)
      ]),
      (λ h.
          (or_iff (is_acknowledged_on_chain loc_issuers item submitter) _).1
            (elim h [ inl a ↦ inl (acknowledged.1 a) | inr p ↦ inr (published.1 p) ])),
    )

-- what closing asks of an item
pub Closable : LocVerifiedIssuers → Bool → ItemLifecycle → ValidAccountId → Type 0
Closable loc_issuers false item submitter = IsAcknowledged loc_issuers item submitter
Closable loc_issuers true item submitter =
    IsAcknowledged loc_issuers item submitter ⊎ IsPublished loc_issuers item submitter

is_no_item_iff :
    (test : ItemLifecycle → ValidAccountId → Bool) (P : ItemLifecycle → ValidAccountId → Type 0)
    (loc : LocData)
    → ((item : ItemLifecycle) (submitter : ValidAccountId)
        → (test item submitter ≡ true) ↔ P item submitter)
    → (is_no_item (λ item submitter. not (test item submitter)) loc ≡ true) ↔ HasAll P loc
unfolding is_no_item HasAll
is_no_item_iff test P loc each =
    let files =
      is_set-find_iff (λ (file : MergedFile). test file.lifecycle file.submitter) loc.files in
    let items =
      is_set-find_iff (λ (item : MergedMetadataItem). test item.lifecycle item.submitter)
        loc.metadata in
    let links =
      is_set-find_iff (λ (link : MergedLink). test link.lifecycle link.submitter) loc.links in
    (
      (λ h.
          let (f, rest) = (and_iff _ _).0 h in
          let (m, l) = (and_iff _ _).0 rest in
          (
            (λ file i. (each file.lifecycle file.submitter).0 (files.0 f file i)),
            (λ item i. (each item.lifecycle item.submitter).0 (items.0 m item i)),
            (λ link i. (each link.lifecycle link.submitter).0 (links.0 l link i)),
          )),
      (λ (f, m, l). (and_iff _ _).1 (
        files.1 (λ file i. (each file.lifecycle file.submitter).1 (f file i)),
        (and_iff _ _).1 (
          items.1 (λ item i. (each item.lifecycle item.submitter).1 (m item i)),
          links.1 (λ link i. (each link.lifecycle link.submitter).1 (l link i)),
        ),
      )),
    )

can_close_iff :
    (loc_issuers : LocVerifiedIssuers) (loc : LocData) (auto_ack : Bool)
    → (can_close loc_issuers loc auto_ack ≡ true) ↔ HasAll (Closable loc_issuers auto_ack) loc
unfolding can_close can_auto_ack is_all_items_acknowledged Closable
can_close_iff loc_issuers loc false =
    is_no_item_iff (is_acknowledged_on_chain loc_issuers) _ loc
      (is_acknowledged_on_chain_iff loc_issuers)
can_close_iff loc_issuers loc true =
    is_no_item_iff (is_ready_for_auto_ack loc_issuers) _ loc (ready_iff loc_issuers)

-- The owner's closing of an open LOC goes to the LOC client exactly when every item, whatever its
-- kind, is acknowledged by the owner, and by the verified issuer if one submitted it, or, where
-- closing acknowledges the items, published, and acknowledged by the verified issuer if one submitted
-- it. Otherwise it throws, and asks nothing.
pub close_open_loc-Closable :
    {W : Type 0} (client : AuthenticatedLocClient W) (loc_issuers : LocVerifiedIssuers)
    (loc : LocData) (auto_ack : Bool) (w : W)
    → let run = close_open_loc client loc_issuers loc auto_ack w in
      (HasAll (Closable loc_issuers auto_ack) loc
        × (run ≡ close_loc client loc.id loc.seal auto_ack w))
      ⊎ (¬ HasAll (Closable loc_issuers auto_ack) loc
          × (run ≡ (throw (cannot_close auto_ack), [], w)))
unfolding close_open_loc ensure_can_close ◌>>◌ ◌>>=◌
close_open_loc-Closable client loc_issuers loc auto_ack w =
    elim (Bool-cases (can_close loc_issuers loc auto_ack)) [
      | inl can ↦ inl ((can_close_iff loc_issuers loc auto_ack).0 can, rw (can, ensure_can_close))
      | inr cannot ↦ inr (
        λ all. let can = (can_close_iff loc_issuers loc auto_ack).1 all in cc,
        rw (cannot, ensure_can_close),
      )
    ]
