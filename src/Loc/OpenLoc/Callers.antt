-- ===== src/Loc/OpenLoc/Callers.antt =====
-- Who may publish and acknowledge the items of an open LOC, packages/client/src/Loc.ts.
use text.Mathlib.Text.{◌==◌}
use text.Mathlib.TextEquality.{eq_iff}
use logion_api.Common.{
  ◌≡◌, refl, ◌⊎◌, inl, inr, true, false, none, some, ok, throw, Option-cases, Bool-cases, and_iff,
  In,
}
use logion_api.LocClient.{AccountType, polkadot, ethereum, bech32, ValidAccountId}
use logion_api.Loc.{SupportedAccountId, VerifiedIssuer}
use logion_api.Loc.Data.Backing.{find-cases}
use logion_api.Loc.Closing.{is_polkadot, is_verified_issuer, is_set}
use logion_api.Loc.OpenLoc.{
  same_type, equals, OpenLoc, is_requester, is_owner, is_issuer, ensure_can_publish,
  ensure_can_acknowledge,
}

-- the account is a Polkadot account with the address of the owner
pub record Owner (loc : OpenLoc) : Type 0 where
  pub account : ValidAccountId
  pub current : loc.current_address ≡ some account
  pub type : account.type ≡ polkadot
  pub address : account.address ≡ loc.request.owner_address

-- the account is the one that requested the LOC
pub record Requester (loc : OpenLoc) : Type 0 where
  pub account : ValidAccountId
  pub requester : SupportedAccountId
  pub current : loc.current_address ≡ some account
  pub requested : loc.request.requester_address ≡ some requester
  pub type : account.type ≡ requester.type
  pub address : account.address ≡ requester.address

-- the account is a Polkadot account with the address of a verified issuer of the LOC
pub record Issuer (loc : OpenLoc) : Type 0 where
  pub account : ValidAccountId
  pub issuer : VerifiedIssuer
  pub current : loc.current_address ≡ some account
  pub type : account.type ≡ polkadot
  pub listed : In issuer loc.loc_issuers.issuers
  pub address : issuer.address ≡ account.address

-- who publishes: the requester, or the owner of a LOC that was requested by no account
pub Publisher : OpenLoc → Type 0
Publisher loc = Requester loc ⊎ ((loc.request.requester_address ≡ none) × Owner loc)

pub Acknowledger : OpenLoc → Type 0
Acknowledger loc = Owner loc ⊎ Issuer loc

is_polkadot_lem : (type : AccountType) → is_polkadot type ≡ true → type ≡ polkadot
unfolding is_polkadot
is_polkadot_lem polkadot h = refl
is_polkadot_lem ethereum h = cc
is_polkadot_lem bech32 h = cc

same_type_lem : (a b : AccountType) → same_type a b ≡ true → a ≡ b
unfolding same_type is_polkadot
same_type_lem polkadot polkadot h = refl
same_type_lem polkadot ethereum h = cc
same_type_lem polkadot bech32 h = cc
same_type_lem ethereum ethereum h = refl
same_type_lem ethereum polkadot h = cc
same_type_lem ethereum bech32 h = cc
same_type_lem bech32 bech32 h = refl
same_type_lem bech32 polkadot h = cc
same_type_lem bech32 ethereum h = cc

is_owner-Owner : (loc : OpenLoc) → is_owner loc ≡ true → Owner loc
unfolding is_owner
is_owner-Owner loc h = elim (Option-cases loc.current_address) [
  | inl missing ↦ absurd (let e : false ≡ true = rw (missing, is_owner) at h in cc)
  | inr (account, current) ↦
      let e = rw (current, is_owner) at h in
      let (type, address) = (and_iff (is_polkadot account.type) _).0 e in
      record {
        account = account;
        current = current;
        type = is_polkadot_lem account.type type;
        address = (eq_iff _ _).0 address;
      }
]

is_requester-Requester : (loc : OpenLoc) → is_requester loc ≡ true → Requester loc
unfolding is_requester equals
is_requester-Requester loc h = elim (Option-cases loc.request.requester_address) [
  | inl missing ↦ absurd (let e : false ≡ true = rw (missing, is_requester) at h in cc)
  | inr (requester, requested) ↦ elim (Option-cases loc.current_address) [
    | inl missing ↦ absurd (let e : false ≡ true = rw (requested, missing, is_requester) at h in cc)
    | inr (account, current) ↦
        let e = rw (requested, current, is_requester) at h in
        let (type, address) = (and_iff (same_type account.type requester.type) _).0 e in
        record {
          account = account;
          requester = requester;
          current = current;
          requested = requested;
          type = same_type_lem account.type requester.type type;
          address = (eq_iff _ _).0 address;
        }
  ]
]

is_issuer-Issuer : (loc : OpenLoc) → is_issuer loc ≡ true → Issuer loc
unfolding is_issuer is_verified_issuer is_set
is_issuer-Issuer loc h = elim (Option-cases loc.current_address) [
  | inl missing ↦ absurd (let e : false ≡ true = rw (missing, is_issuer) at h in cc)
  | inr (account, current) ↦
      let e : is_verified_issuer loc.loc_issuers account ≡ true = rw (current, is_issuer) at h in
      let (type, listed) = (and_iff (is_polkadot account.type) _).0 e in
      elim (find-cases (λ (issuer : VerifiedIssuer). issuer.address == account.address)
        loc.loc_issuers.issuers) [
          | inl (issuer, i, same, found) ↦ record {
            account = account;
            issuer = issuer;
            current = current;
            type = is_polkadot_lem account.type type;
            listed = i;
            address = (eq_iff _ _).0 same;
          }
          | inr (never, missing) ↦
              absurd (let e : false ≡ true = rw (missing, is_set) at listed in cc)
        ]
]

pub ensure_can_publish-Publisher : (loc : OpenLoc) → ensure_can_publish loc ≡ ok tt → Publisher loc
unfolding ensure_can_publish Publisher
ensure_can_publish-Publisher loc h = elim (Option-cases loc.request.requester_address) [
  | inr (requester, requested) ↦ elim (Bool-cases (is_requester loc)) [
    | inl is ↦ inl (is_requester-Requester loc is)
    | inr other ↦ absurd (
        let e : throw "Only requester can publish" ≡ ok tt =
          rw (requested, other, ensure_can_publish) at h in
        cc)
  ]
  | inl missing ↦ elim (Bool-cases (is_owner loc)) [
    | inl is ↦ inr (missing, is_owner-Owner loc is)
    | inr other ↦ absurd (
        let e : throw "Only owner can publish" ≡ ok tt =
          rw (missing, other, ensure_can_publish) at h in
        cc)
  ]
]

pub ensure_can_acknowledge-Acknowledger :
    (loc : OpenLoc) → ensure_can_acknowledge loc ≡ ok tt → Acknowledger loc
unfolding ensure_can_acknowledge Acknowledger
ensure_can_acknowledge-Acknowledger loc h = elim (Bool-cases (is_owner loc)) [
  | inl is ↦ inl (is_owner-Owner loc is)
  | inr other ↦ elim (Bool-cases (is_issuer loc)) [
    | inl is ↦ inr (is_issuer-Issuer loc is)
    | inr neither ↦ absurd (
        let e : throw "Only owner or a verified issuer can acknowledge" ≡ ok tt =
          rw (other, neither, ensure_can_acknowledge) at h in
        cc)
  ]
]
