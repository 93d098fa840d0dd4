-- ===== src/LocClient/Items.antt =====
-- The items of a LOC: publication and acknowledgement, in AuthenticatedLocClient of
-- packages/client/src/LocClient.ts.
pub mod Compensations
use logion_api.Common.{ℕ, String, Bool, Option, none, some, List, [], ◌∷◌, Result}
use logion_api.Hash.{Hash}
use logion_api.Fees.{Fees}
use logion_api.Fees.Estimator.{Api, estimate_with_storage, estimate_without_storage}
use logion_api.Fees.Estimator
use logion_api.Calls.{
  Uuid, Piece, lit, uuid, hex, Body, put, delete, Run, reading, ◌>>=◌, ◌>>◌, backend, sign,
  try_catch,
}
use logion_api.LocClient.{
  ValidAccountId, FileParams, LinkParams, Submittable, add_file, add_metadata, add_link,
  acknowledge_file, acknowledge_metadata, acknowledge_link, AuthenticatedLocClient,
}

-- `metadata` of EstimateFeesPublishMetadataParams
pub record PublishedMetadata : Type 0 where
  pub name : String
  pub value : String
  pub submitter : ValidAccountId

abbrev pub file_path : Uuid → Hash → String → List Piece
file_path loc_id hash last =
    lit "/api/loc-request/" ∷ uuid loc_id ∷ lit "/files/" ∷ hex hash ∷ lit last ∷ []

abbrev pub metadata_path : Uuid → Hash → String → List Piece
metadata_path loc_id name_hash last =
    lit "/api/loc-request/" ∷ uuid loc_id ∷ lit "/metadata/" ∷ hex name_hash ∷ lit last ∷ []

abbrev pub link_path : Uuid → Uuid → String → List Piece
link_path loc_id target last =
    lit "/api/loc-request/" ∷ uuid loc_id ∷ lit "/links/" ∷ uuid target ∷ lit last ∷ []

module _ {W : Type 0} (client : AuthenticatedLocClient W) where
  abbrev pub me : String
  me = client.current_address.address

  unfoldable pub ensure_own_funds : Fees → W → Result (Unit {0})
  ensure_own_funds fees w = Estimator.ensure_enough_funds (client.api w) fees me

  -- an estimation that only reads the fee of inclusion
  unfoldable pub estimate_inclusion : Submittable → W → Result Fees
  estimate_inclusion submittable w = estimate_without_storage (client.api w) me submittable

  unfoldable pub publish_file_submittable : Uuid → FileParams → Submittable
  publish_file_submittable loc_id file = add_file loc_id file

  unfoldable pub estimate_fees_publish_file : Uuid → FileParams → W → Result Fees
  estimate_fees_publish_file loc_id file w =
      estimate_with_storage (client.api w) me (publish_file_submittable loc_id file) file.size

  unfoldable pub publish_file : Uuid → FileParams → Run Submittable W (Unit {0})
  publish_file loc_id file = do
    fees ← reading (estimate_fees_publish_file loc_id file)
    reading (ensure_own_funds fees)
    backend client.outside put (file_path loc_id file.hash "/pre-publish-ack") []
    try_catch (sign client.outside me (publish_file_submittable loc_id file))
        (backend client.outside delete (file_path loc_id file.hash "/pre-publish-ack") [])

  unfoldable pub acknowledge_file_submittable : Uuid → Hash → Submittable
  acknowledge_file_submittable loc_id hash = acknowledge_file loc_id hash

  unfoldable pub estimate_fees_acknowledge_file : Uuid → Hash → W → Result Fees
  estimate_fees_acknowledge_file loc_id hash =
      estimate_inclusion (acknowledge_file_submittable loc_id hash)

  unfoldable pub acknowledge_published_file : Uuid → Hash → Run Submittable W (Unit {0})
  acknowledge_published_file loc_id hash = do
    fees ← reading (estimate_fees_acknowledge_file loc_id hash)
    reading (ensure_own_funds fees)
    backend client.outside put (file_path loc_id hash "/pre-ack") []
    try_catch (sign client.outside me (acknowledge_file_submittable loc_id hash))
        (backend client.outside delete (file_path loc_id hash "/pre-ack") [])

  unfoldable pub publish_metadata_submittable : Uuid → PublishedMetadata → Submittable
  publish_metadata_submittable loc_id metadata = add_metadata loc_id (record {
    name = client.hashing metadata.name;
    value = client.hashing metadata.value;
    submitter = metadata.submitter;
  })

  unfoldable pub estimate_fees_publish_metadata : Uuid → PublishedMetadata → W → Result Fees
  estimate_fees_publish_metadata loc_id metadata =
      estimate_inclusion (publish_metadata_submittable loc_id metadata)

  unfoldable pub publish_metadata : Uuid → PublishedMetadata → Run Submittable W (Unit {0})
  publish_metadata loc_id metadata = do
    fees ← reading (estimate_fees_publish_metadata loc_id metadata)
    reading (ensure_own_funds fees)
    backend client.outside put
        (metadata_path loc_id (client.hashing metadata.name) "/pre-publish-ack") []
    try_catch (sign client.outside me (publish_metadata_submittable loc_id metadata)) (
        backend client.outside delete
          (metadata_path loc_id (client.hashing metadata.name) "/pre-publish-ack") [])

  unfoldable pub acknowledge_metadata_submittable : Uuid → Hash → Submittable
  acknowledge_metadata_submittable loc_id name_hash = acknowledge_metadata loc_id name_hash

  unfoldable pub estimate_fees_acknowledge_metadata : Uuid → Hash → W → Result Fees
  estimate_fees_acknowledge_metadata loc_id name_hash =
      estimate_inclusion (acknowledge_metadata_submittable loc_id name_hash)

  unfoldable pub acknowledge_published_metadata : Uuid → Hash → Run Submittable W (Unit {0})
  acknowledge_published_metadata loc_id name_hash = do
    fees ← reading (estimate_fees_acknowledge_metadata loc_id name_hash)
    reading (ensure_own_funds fees)
    backend client.outside put (metadata_path loc_id name_hash "/pre-ack") []
    try_catch (sign client.outside me (acknowledge_metadata_submittable loc_id name_hash))
        (backend client.outside delete (metadata_path loc_id name_hash "/pre-ack") [])

  unfoldable pub publish_link_submittable : Uuid → LinkParams → Submittable
  publish_link_submittable loc_id link = add_link loc_id link

  unfoldable pub estimate_fees_publish_link : Uuid → LinkParams → W → Result Fees
  estimate_fees_publish_link loc_id link = estimate_inclusion (publish_link_submittable loc_id link)

  unfoldable pub publish_link : Uuid → LinkParams → Run Submittable W (Unit {0})
  publish_link loc_id link = do
    fees ← reading (estimate_fees_publish_link loc_id link)
    reading (ensure_own_funds fees)
    backend client.outside put (link_path loc_id link.id "/pre-publish-ack") []
    try_catch (sign client.outside me (publish_link_submittable loc_id link))
        (backend client.outside delete (link_path loc_id link.id "/pre-publish-ack") [])

  unfoldable pub acknowledge_link_submittable : Uuid → Uuid → Submittable
  acknowledge_link_submittable loc_id target = acknowledge_link loc_id target

  unfoldable pub estimate_fees_acknowledge_link : Uuid → Uuid → W → Result Fees
  estimate_fees_acknowledge_link loc_id target =
      estimate_inclusion (acknowledge_link_submittable loc_id target)

  -- what cancelPreAcknowledgeLink asks is what preAcknowledgeLink asks
  unfoldable pub acknowledge_published_link : Uuid → Uuid → Run Submittable W (Unit {0})
  acknowledge_published_link loc_id target = do
    fees ← reading (estimate_fees_acknowledge_link loc_id target)
    reading (ensure_own_funds fees)
    backend client.outside put (link_path loc_id target "/pre-ack") []
    try_catch (sign client.outside me (acknowledge_link_submittable loc_id target))
        (backend client.outside put (link_path loc_id target "/pre-ack") [])
