-- ===== src/Loc/OpenLoc/Permissions.antt =====
-- Who publishes and acknowledges which items of an open LOC, packages/client/src/Loc.ts.
use text.Mathlib.Text.{◌==◌}
use text.Mathlib.TextEquality.{eq_iff}
use logion_api.Common.{
  ◌≡◌, refl, ◌⊎◌, inl, inr, String, Bool, true, List, [], Result, ok, throw, ◌>>=◌, ◌>>◌, >>=-eq-ok,
  ok-inj, subst, and_iff, In, or_throw,
}
use logion_api.Numbers.Text.{text_eq}
use logion_api.Hash.{Hash, to_hex}
use logion_api.Calls
use logion_api.Calls.{Uuid, Run, reading}
use logion_api.LocClient.{LinkParams, Submittable, AuthenticatedLocClient}
use logion_api.LocClient.Items.{
  PublishedMetadata, publish_file, publish_metadata, publish_link, acknowledge_published_file,
  acknowledge_published_metadata, acknowledge_published_link,
}
use logion_api.Loc.{ItemStatus, LocFile, LocMetadataItem, LocLink}
use logion_api.Loc.Merging.{Readers, find}
use logion_api.Loc.Data.Backing.{find-cases}
use logion_api.Loc.Closing.Conditions.{same_status_iff}
use logion_api.Loc.OpenLoc.{
  OpenLoc, ensure_can_publish, ensure_can_acknowledge, FoundFile, has_file, has_metadata, has_link,
  find_file, find_metadata, find_link, to_publish, publish_loc_file, publish_loc_metadata,
  publish_loc_link, acknowledge_loc_file, acknowledge_loc_metadata, acknowledge_loc_link,
}
use logion_api.Loc.OpenLoc.Callers.{
  Publisher, Acknowledger, ensure_can_publish-Publisher, ensure_can_acknowledge-Acknowledger,
}

-- an item of the request with this hash, or this target, and this status
pub FileWith : OpenLoc → Hash → ItemStatus → Type 0
FileWith loc hash status =
    (file : LocFile) × In file loc.request.files
    × (text_eq file.hash (to_hex hash) ≡ true)
    × (file.lifecycle.status ≡ status)

pub MetadataWith : OpenLoc → Hash → ItemStatus → Type 0
MetadataWith loc name_hash status =
    (item : LocMetadataItem) × In item loc.request.metadata
    × (text_eq item.name_hash (to_hex name_hash) ≡ true)
    × (item.lifecycle.status ≡ status)

pub LinkWith : OpenLoc → Uuid → ItemStatus → Type 0
LinkWith loc target status =
    (link : LocLink) × In link loc.request.links
    × (link.target ≡ target)
    × (link.lifecycle.status ≡ status)

-- what a search that does not throw has found
or_throw-find :
    {A : Type 0} (message : String) (test : A → Bool) (xs : List A) (x : A)
    → or_throw message (find test xs) ≡ ok x
    → In x xs × (test x ≡ true)
or_throw-find message test xs x h = elim (find-cases test xs) [
  | inl (y, i, e, found) ↦
      let same : ok y ≡ ok x = rw (found) at h in
      let e' = ok-inj same in (subst (λ z. In z xs) e' i, subst (λ z. test z ≡ true) e' e)
  | inr (never, missing) ↦ absurd (let e : throw message ≡ ok x = rw (missing) at h in cc)
]

module _ (readers : Readers) (loc : OpenLoc) where
  find_file-FileWith :
      (hash : Hash) (status : ItemStatus) (found : FoundFile)
      → find_file readers loc hash status ≡ ok found
      → FileWith loc hash status
  unfolding find_file FileWith has_file
  find_file-FileWith hash status found h =
      let (file, e, _) =
        >>=-eq-ok (or_throw "File was not found" (find (has_file hash status) loc.request.files)) _
          h in
      let (i, t) =
        or_throw-find "File was not found" (has_file hash status) loc.request.files file e in
      let (same, s) = (and_iff (text_eq file.hash (to_hex hash)) _).0 t in
      (file, i, same, (same_status_iff _ _).0 s)

  find_metadata-MetadataWith :
      (name_hash : Hash) (status : ItemStatus) (found : PublishedMetadata)
      → find_metadata readers loc name_hash status ≡ ok found
      → MetadataWith loc name_hash status
  unfolding find_metadata MetadataWith has_metadata
  find_metadata-MetadataWith name_hash status found h =
      let (item, e, _) =
        >>=-eq-ok
          (or_throw "Metadata was not found"
            (find (has_metadata name_hash status) loc.request.metadata))
          _ h in
      let (i, t) =
        or_throw-find "Metadata was not found" (has_metadata name_hash status) loc.request.metadata
          item e in
      let (same, s) = (and_iff (text_eq item.name_hash (to_hex name_hash)) _).0 t in
      (item, i, same, (same_status_iff _ _).0 s)

  find_link-LinkWith :
      (target : Uuid) (status : ItemStatus) (found : LinkParams)
      → find_link readers loc target status ≡ ok found
      → LinkWith loc target status
  unfolding find_link LinkWith has_link
  find_link-LinkWith target status found h =
      let (link, e, _) =
        >>=-eq-ok (or_throw "Link was not found" (find (has_link target status) loc.request.links))
          _ h in
      let (i, t) =
        or_throw-find "Link was not found" (has_link target status) loc.request.links link e in
      let (same, s) = (and_iff (link.target == target) _).0 t in
      (link, i, (eq_iff _ _).0 same, (same_status_iff _ _).0 s)

-- Either the checks throw, and nothing is asked, or the LOC client is asked with what was found, and
-- then the caller is permitted and the item is there.
pub Guarded :
    {W A : Type 0}
    → Result (Unit {0})
    → Result A
    → Type 0
    → (A → Run Submittable W (Unit {0}))
    → Run Submittable W (Unit {0})
    → W
    → Type 0
Guarded {W} {A} allowed found Established inner run w =
    ((message : String) × ((allowed >> found) ≡ throw message) × (run w ≡ (throw message, [], w)))
    ⊎ ((a : A) × (found ≡ ok a) × (run w ≡ inner a w) × Established)

guarded :
    {W A : Type 0} (allowed : Result (Unit {0})) (found : Result A) (Established : Type 0)
    (inner : A → Run Submittable W (Unit {0})) (w : W)
    → ((a : A) → allowed ≡ ok tt → found ≡ ok a → Established)
    → Guarded allowed found Established inner
        (Calls.◌>>◌ (reading (λ w. allowed)) (Calls.◌>>=◌ (reading (λ w. found)) inner))
        w
unfolding Guarded Calls.◌>>◌ Calls.◌>>=◌
guarded (throw message) found Established inner w h = inl (message, refl, refl)
guarded (ok _) (throw message) Established inner w h = inl (message, refl, refl)
guarded (ok _) (ok a) Established inner w h = inr (a, refl, refl, h a refl refl)

module _ {W : Type 0} (readers : Readers) (client : AuthenticatedLocClient W) (loc : OpenLoc) where
  -- An open LOC publishes an item only for its requester, or for its owner if no account requested
  -- it, and only an item of its request that the review has accepted; else it throws and asks nothing.
  pub publications-Guarded :
      (hash name_hash : Hash) (target : Uuid) (w : W)
      → Guarded
          (ensure_can_publish loc)
          (find_file readers loc hash ItemStatus.review_accepted >>= to_publish)
          (Publisher loc × FileWith loc hash ItemStatus.review_accepted)
          (publish_file client loc.loc_id)
          (publish_loc_file readers client loc hash)
          w
        × Guarded
            (ensure_can_publish loc)
            (find_metadata readers loc name_hash ItemStatus.review_accepted)
            (Publisher loc × MetadataWith loc name_hash ItemStatus.review_accepted)
            (publish_metadata client loc.loc_id)
            (publish_loc_metadata readers client loc name_hash)
            w
        × Guarded
            (ensure_can_publish loc)
            (find_link readers loc target ItemStatus.review_accepted)
            (Publisher loc × LinkWith loc target ItemStatus.review_accepted)
            (publish_link client loc.loc_id)
            (publish_loc_link readers client loc target)
            w
  unfolding publish_loc_file publish_loc_metadata publish_loc_link
  publications-Guarded hash name_hash target w = (
    guarded (ensure_can_publish loc) _ _ _ w (λ a allowed h.
        let (found, f, _) = >>=-eq-ok (find_file readers loc hash ItemStatus.review_accepted) _ h in
        (
          ensure_can_publish-Publisher loc allowed,
          find_file-FileWith readers loc hash ItemStatus.review_accepted found f,
        )),
    guarded (ensure_can_publish loc) _ _ _ w (λ a allowed h. (
      ensure_can_publish-Publisher loc allowed,
      find_metadata-MetadataWith readers loc name_hash ItemStatus.review_accepted a h,
    )),
    guarded (ensure_can_publish loc) _ _ _ w (λ a allowed h. (
      ensure_can_publish-Publisher loc allowed,
      find_link-LinkWith readers loc target ItemStatus.review_accepted a h,
    )),
  )

  -- An open LOC acknowledges an item only for its owner or one of its verified issuers, and only an
  -- item of its request that is published; else it throws and asks nothing.
  pub acknowledgements-Guarded :
      (hash name_hash : Hash) (target : Uuid) (w : W)
      → Guarded
          (ensure_can_acknowledge loc)
          (find_file readers loc hash ItemStatus.published)
          (Acknowledger loc × FileWith loc hash ItemStatus.published)
          (λ file. acknowledge_published_file client loc.loc_id hash)
          (acknowledge_loc_file readers client loc hash)
          w
        × Guarded
            (ensure_can_acknowledge loc)
            (find_metadata readers loc name_hash ItemStatus.published)
            (Acknowledger loc × MetadataWith loc name_hash ItemStatus.published)
            (λ item. acknowledge_published_metadata client loc.loc_id name_hash)
            (acknowledge_loc_metadata readers client loc name_hash)
            w
        × Guarded
            (ensure_can_acknowledge loc)
            (find_link readers loc target ItemStatus.published)
            (Acknowledger loc × LinkWith loc target ItemStatus.published)
            (λ link. acknowledge_published_link client loc.loc_id target)
            (acknowledge_loc_link readers client loc target)
            w
  unfolding acknowledge_loc_file acknowledge_loc_metadata acknowledge_loc_link
  acknowledgements-Guarded hash name_hash target w = (
    guarded (ensure_can_acknowledge loc) _ _ _ w (λ a allowed h. (
      ensure_can_acknowledge-Acknowledger loc allowed,
      find_file-FileWith readers loc hash ItemStatus.published a h,
    )),
    guarded (ensure_can_acknowledge loc) _ _ _ w (λ a allowed h. (
      ensure_can_acknowledge-Acknowledger loc allowed,
      find_metadata-MetadataWith readers loc name_hash ItemStatus.published a h,
    )),
    guarded (ensure_can_acknowledge loc) _ _ _ w (λ a allowed h. (
      ensure_can_acknowledge-Acknowledger loc allowed,
      find_link-LinkWith readers loc target ItemStatus.published a h,
    )),
  )
