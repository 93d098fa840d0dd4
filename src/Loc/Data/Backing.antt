-- ===== src/Loc/Data/Backing.antt =====
-- What the merged data of a LOC take from the chain, packages/client/src/Loc.ts.
use logion_api.Common.{
  ◌≡◌, refl, sym, ap, ◌∙◌, subst, ◌⊎◌, inl, inr, Bool, true, false, Option, none, some, List, [],
  ◌∷◌, Result, ok, >>=-eq-ok, ok-inj, In, All2, Bool-cases,
}
use logion_api.Common.Int.{pos}
use logion_api.Numbers.Text.{text_eq}
use logion_api.Numbers.BigInt.{big_int}
use logion_api.Hash.{to_hex, from_hex}
use logion_api.LocClient.{ValidAccountId}
use logion_api.Loc.{
  LocFile, LocMetadataItem, LocLink, LocItemAck, ChainFile, ChainMetadataItem, ChainLink,
  LocRequest, LegalOfficerCase, LocVerifiedIssuers, ItemLifecycle, MergedLink, MergedFile,
  MergedMetadataItem, LocData,
}
use logion_api.Loc.Data.{
  read_account, read_loc_fees, build_loc_data, data_from_request, data_from_request_and_loc,
}
use logion_api.Loc.Merging.{
  Readers, read_if, published_file, published_metadata, published_link, unpublished_file,
  unpublished_metadata, unpublished_link, map_result, find, no_ack, parse_item_lifecycle_dates,
  chain_files, chain_metadata, chain_links, merge_metadata, merge_file, merge_link,
}
use text.Mathlib.Text.{◌==◌}

pub find-cases :
    {A : Type 0} (test : A → Bool) (xs : List A)
    → ((x : A) × In x xs × (test x ≡ true) × (find test xs ≡ some x))
      ⊎ (((x : A) → In x xs → test x ≡ false) × (find test xs ≡ none))
unfolding find
find-cases test [] = inr (λ x i. absurd i, refl)
find-cases test (x ∷ xs) = elim (Bool-cases (test x)) [
  | inl here ↦ inl (x, inl refl, here, rw (here))
  | inr other ↦ elim (find-cases test xs) [
    | inl (y, i, e, f) ↦ inl (y, inr i, e, rw (other) f)
    | inr (all, f) ↦ inr (
      λ y i. elim i [
        | inl same ↦ subst (λ z. test z ≡ false) (sym same) other
        | inr later ↦ all y later
      ],
      rw (other) f,
    )
  ]
]

map_result-All2 :
    {A B : Type 0} (R : A → B → Type 0) (f : A → Result B)
    → ((a : A) (b : B) → f a ≡ ok b → R a b)
    → (xs : List A) (ys : List B) → map_result f xs ≡ ok ys
    → All2 R xs ys
unfolding map_result
map_result-All2 R f h [] [] e = tt
map_result-All2 R f h [] (y ∷ ys) e = cc
map_result-All2 R f h (x ∷ xs) ys e =
    let (b, first, later) = >>=-eq-ok (f x) _ e in
    let (bs, rest, last) = >>=-eq-ok (map_result f xs) _ later in
    subst (All2 R (x ∷ xs)) (ok-inj last) (h x b first, map_result-All2 R f h xs bs rest)

-- the item is on the chain, and is acknowledged as the chain says, ...
pub record OnChain (lifecycle : ItemLifecycle) (ack : LocItemAck) : Type 0 where
  pub is_published : lifecycle.published ≡ true
  pub by_owner : lifecycle.acknowledged_by_owner ≡ ack.acknowledged_by_owner
  pub by_issuer : lifecycle.acknowledged_by_verified_issuer ≡ ack.acknowledged_by_verified_issuer

-- ... or it is not, and is acknowledged by nobody
pub record OffChain (lifecycle : ItemLifecycle) : Type 0 where
  pub unpublished : lifecycle.published ≡ false
  pub by_owner : lifecycle.acknowledged_by_owner ≡ false
  pub by_issuer : lifecycle.acknowledged_by_verified_issuer ≡ false

-- A file of the backend with the hash of a file of the chain is merged with it, another one is not.
pub FileBacked : List ChainFile → LocFile → MergedFile → Type 0
FileBacked chain file merged =
    ((c : ChainFile) × In c chain
      × (text_eq (to_hex c.params.hash) file.hash ≡ true)
      × OnChain merged.lifecycle c.ack
      × (merged.hash ≡ c.params.hash)
      × (merged.nature.hash ≡ c.params.nature)
      × (merged.submitter ≡ c.params.submitter)
      × (merged.size ≡ pos c.params.size))
    ⊎ (((c : ChainFile) → In c chain → text_eq (to_hex c.params.hash) file.hash ≡ false)
        × OffChain merged.lifecycle)

pub MetadataBacked : List ChainMetadataItem → LocMetadataItem → MergedMetadataItem → Type 0
MetadataBacked chain item merged =
    ((c : ChainMetadataItem) × In c chain
      × (text_eq (to_hex c.params.name) item.name_hash ≡ true)
      × OnChain merged.lifecycle c.ack
      × (merged.name.hash ≡ c.params.name)
      × (merged.value.hash ≡ c.params.value)
      × (merged.submitter ≡ c.params.submitter))
    ⊎ (((c : ChainMetadataItem)
          → In c chain
          → text_eq (to_hex c.params.name) item.name_hash ≡ false)
        × OffChain merged.lifecycle)

pub LinkBacked : List ChainLink → LocLink → MergedLink → Type 0
LinkBacked chain link merged =
    ((c : ChainLink) × In c chain
      × ((c.params.id == link.target) ≡ true)
      × OnChain merged.lifecycle c.ack
      × (merged.target ≡ c.params.id)
      × (merged.nature.hash ≡ c.params.nature)
      × (merged.submitter ≡ c.params.submitter))
    ⊎ (((c : ChainLink) → In c chain → (c.params.id == link.target) ≡ false)
        × OffChain merged.lifecycle)

module _ (readers : Readers) (chain_loc : Option LegalOfficerCase) where
  merge_file-Backed :
      (file : LocFile) (merged : MergedFile)
      → merge_file readers chain_loc file ≡ ok merged
      → FileBacked (chain_files chain_loc) file merged
  unfolding FileBacked merge_file published_file unpublished_file parse_item_lifecycle_dates no_ack
  merge_file-Backed file merged h =
      elim (find-cases (λ (c : ChainFile). text_eq (to_hex c.params.hash) file.hash)
        (chain_files chain_loc)) [
          | inl (c, i, same, found) ↦
              let e : ok (published_file readers file c) ≡ ok merged =
                rw (found, merge_file) at h in
              subst (FileBacked (chain_files chain_loc) file) (ok-inj e) (
                inl (
                  c,
                  i,
                  same,
                  record { is_published = refl; by_owner = refl; by_issuer = refl },
                  refl,
                  refl,
                  refl,
                  refl,
                ))
          | inr (never, missing) ↦
              let e : unpublished_file readers file ≡ ok merged = rw (missing, merge_file) at h in
              let (_a, _, f) = >>=-eq-ok (readers.valid_account_id file.submitter) _ e in
              let (_s, _, g) = >>=-eq-ok (big_int file.size) _ f in
              let (_h, _, last) = >>=-eq-ok (from_hex file.hash) _ g in
              subst (FileBacked (chain_files chain_loc) file) (ok-inj last)
                (inr (never, record { unpublished = refl; by_owner = refl; by_issuer = refl }))
        ]

  merge_metadata-Backed :
      (item : LocMetadataItem) (merged : MergedMetadataItem)
      → merge_metadata readers chain_loc item ≡ ok merged
      → MetadataBacked (chain_metadata chain_loc) item merged
  unfolding MetadataBacked merge_metadata published_metadata unpublished_metadata
      parse_item_lifecycle_dates no_ack
  merge_metadata-Backed item merged h =
      elim (find-cases (λ (c : ChainMetadataItem). text_eq (to_hex c.params.name) item.name_hash)
        (chain_metadata chain_loc)) [
          | inl (c, i, same, found) ↦
              let e : ok (published_metadata readers item c) ≡ ok merged =
                rw (found, merge_metadata) at h in
              subst (MetadataBacked (chain_metadata chain_loc) item) (ok-inj e) (
                inl (
                  c,
                  i,
                  same,
                  record { is_published = refl; by_owner = refl; by_issuer = refl },
                  refl,
                  refl,
                  refl,
                ))
          | inr (never, missing) ↦
              let e : unpublished_metadata readers item ≡ ok merged =
                rw (missing, merge_metadata) at h in
              let (_a, _, last) = >>=-eq-ok (readers.valid_account_id item.submitter) _ e in
              subst (MetadataBacked (chain_metadata chain_loc) item) (ok-inj last)
                (inr (never, record { unpublished = refl; by_owner = refl; by_issuer = refl }))
        ]

  merge_link-Backed :
      (link : LocLink) (merged : MergedLink)
      → merge_link readers chain_loc link ≡ ok merged
      → LinkBacked (chain_links chain_loc) link merged
  unfolding LinkBacked merge_link published_link unpublished_link parse_item_lifecycle_dates no_ack
  merge_link-Backed link merged h =
      elim (find-cases (λ (c : ChainLink). c.params.id == link.target) (chain_links chain_loc)) [
        | inl (c, i, same, found) ↦
            let e : ok (published_link readers link c) ≡ ok merged = rw (found, merge_link) at h in
            subst (LinkBacked (chain_links chain_loc) link) (ok-inj e) (
              inl (
                c,
                i,
                same,
                record { is_published = refl; by_owner = refl; by_issuer = refl },
                refl,
                refl,
                refl,
              ))
        | inr (never, missing) ↦
            let e : unpublished_link readers link ≡ ok merged = rw (missing, merge_link) at h in
            let (_a, _, f) = >>=-eq-ok (readers.valid_account_id link.submitter) _ e in
            let (_t, _, last) = >>=-eq-ok (readers.new_uuid link.target) _ f in
            subst (LinkBacked (chain_links chain_loc) link) (ok-inj last)
              (inr (never, record { unpublished = refl; by_owner = refl; by_issuer = refl }))
      ]

-- each item of the data comes from the item of the backend at its place, as the chain backs it
pub record Backed (chain_loc : Option LegalOfficerCase) (request : LocRequest) (loc : LocData)
    : Type 0 where
  pub files : All2 (FileBacked (chain_files chain_loc)) request.files loc.files
  pub metadata : All2 (MetadataBacked (chain_metadata chain_loc)) request.metadata loc.metadata
  pub links : All2 (LinkBacked (chain_links chain_loc)) request.links loc.links

module _ (readers : Readers) (loc_issuers : LocVerifiedIssuers) (contributors : List ValidAccountId)
    (request : LocRequest) (loc : LocData) where
  items-Backed :
      (chain_loc : Option LegalOfficerCase)
      → map_result (merge_metadata readers chain_loc) request.metadata ≡ ok loc.metadata
      → map_result (merge_file readers chain_loc) request.files ≡ ok loc.files
      → map_result (merge_link readers chain_loc) request.links ≡ ok loc.links
      → Backed chain_loc request loc
  items-Backed chain_loc m f l = record {
    files = map_result-All2 _ _ (merge_file-Backed readers chain_loc) request.files loc.files f;
    metadata =
        map_result-All2 _ _ (merge_metadata-Backed readers chain_loc) request.metadata loc.metadata
          m;
    links = map_result-All2 _ _ (merge_link-Backed readers chain_loc) request.links loc.links l;
  }

  -- Whatever the backend answers, an item of the data of a LOC is shown as published, or as
  -- acknowledged, exactly as the chain has it, and nothing is when the LOC is not on the chain; an
  -- item that the chain has is shown with the hashes, the submitter and, for a file, the size of the
  -- chain. The items are those of the backend, in their order.
  pub build_loc_data-Backed :
      (chain_loc : Option LegalOfficerCase)
      → build_loc_data readers loc_issuers contributors chain_loc request ≡ ok loc
      → Backed chain_loc request loc
  unfolding build_loc_data data_from_request data_from_request_and_loc
  build_loc_data-Backed none h =
      let (_, _, h₁) =
        >>=-eq-ok (read_account readers.valid_account_id request.requester_address) _ h in
      let (_, _, h₂) = >>=-eq-ok (read_if readers.new_uuid request.requester_identity_loc) _ h₁ in
      let (_, _, h₃) = >>=-eq-ok (readers.new_uuid request.id) _ h₂ in
      let (_, _, h₄) = >>=-eq-ok (read_if readers.new_uuid request.identity_loc) _ h₃ in
      let (_, m, h₅) = >>=-eq-ok (map_result (merge_metadata readers none) request.metadata) _ h₄ in
      let (_, f, h₆) = >>=-eq-ok (map_result (merge_file readers none) request.files) _ h₅ in
      let (_, l, h₇) = >>=-eq-ok (map_result (merge_link readers none) request.links) _ h₆ in
      let (_, _, h₈) = >>=-eq-ok (read_if readers.new_uuid request.sponsorship_id) _ h₇ in
      let (_, _, last) = >>=-eq-ok (read_loc_fees request.fees) _ h₈ in
      let e = ok-inj last in
      items-Backed none (m ∙ ap (λ (d : LocData). ok d.metadata) e)
        (f ∙ ap (λ (d : LocData). ok d.files) e) (l ∙ ap (λ (d : LocData). ok d.links) e)
  build_loc_data-Backed (some chain_loc) h =
      let (_, _, h₁) = >>=-eq-ok (readers.new_uuid request.id) _ h in
      let (_, _, h₂) = >>=-eq-ok (read_if readers.new_uuid request.identity_loc) _ h₁ in
      let (_, m, h₃) =
        >>=-eq-ok (map_result (merge_metadata readers (some chain_loc)) request.metadata) _ h₂ in
      let (_, f, h₄) =
        >>=-eq-ok (map_result (merge_file readers (some chain_loc)) request.files) _ h₃ in
      let (_, l, last) =
        >>=-eq-ok (map_result (merge_link readers (some chain_loc)) request.links) _ h₄ in
      let e = ok-inj last in
      items-Backed (some chain_loc) (m ∙ ap (λ (d : LocData). ok d.metadata) e)
        (f ∙ ap (λ (d : LocData). ok d.files) e) (l ∙ ap (λ (d : LocData). ok d.links) e)
