-- ===== src/LocClient/Items/Compensations.antt =====
-- How the publications and acknowledgements of packages/client/src/LocClient.ts end.
use logion_api.Common.{true, List, [], Result}
use logion_api.Hash.{Hash}
use logion_api.Fees.{Fees}
use logion_api.Calls.{Uuid, Verb, Piece, request, sign_and_send, put, delete, Run}
use logion_api.Calls.Compensation.{Compensated, checked, submission, submission-Compensated}
use logion_api.LocClient.{FileParams, LinkParams, Submittable, AuthenticatedLocClient}
use logion_api.LocClient.Items.{
  PublishedMetadata, file_path, metadata_path, link_path, me, ensure_own_funds,
  publish_file_submittable, estimate_fees_publish_file, publish_file, acknowledge_file_submittable,
  estimate_fees_acknowledge_file, acknowledge_published_file, publish_metadata_submittable,
  estimate_fees_publish_metadata, publish_metadata, acknowledge_metadata_submittable,
  estimate_fees_acknowledge_metadata, acknowledge_published_metadata, publish_link_submittable,
  estimate_fees_publish_link, publish_link, acknowledge_link_submittable,
  estimate_fees_acknowledge_link, acknowledge_published_link,
}

-- The preparation of an item is put at a path of the backend, the transaction is signed by the
-- account of the client, and the cancellation is another request at the same path.
abbrev pub ItemCompensated :
    {W : Type 0}
    → AuthenticatedLocClient W
    → Verb
    → (W → Result Fees)
    → List Piece
    → Submittable
    → Run Submittable W (Unit {0})
    → W
    → Type 0
ItemCompensated client verb estimate path tx run w =
    Compensated client.outside true (checked client.outside estimate (ensure_own_funds client) w)
      (request put path []) (sign_and_send (me client) tx) (request verb path []) w (run w).0
      (run w).1

module _ {W : Type 0} (client : AuthenticatedLocClient W) where
  item_submission :
      (verb : Verb) (estimate : W → Result Fees) (path : List Piece) (tx : Submittable) (w : W)
      → ItemCompensated client verb estimate path tx
          (submission client.outside estimate
            (ensure_own_funds client)
            put
            path
            []
            (me client)
            tx
            verb
            path
            [])
          w
  item_submission verb estimate path tx w =
      submission-Compensated client.outside estimate (ensure_own_funds client) put verb path path []
        [] (me client) tx w

  -- The publication of a file, of metadata or of a link: nothing is asked of the backend when the
  -- fees cannot be estimated or paid; then the publication is prepared in the backend, and the
  -- transaction is signed; exactly when that fails, the preparation at the same path is deleted, and
  -- the error is passed on, or the one of the deletion if that fails too.
  pub publications-Compensated :
      (loc_id : Uuid) (file : FileParams) (metadata : PublishedMetadata) (link : LinkParams) (w : W)
      → ItemCompensated client delete
          (estimate_fees_publish_file client loc_id file)
          (file_path loc_id file.hash "/pre-publish-ack")
          (publish_file_submittable client loc_id file)
          (publish_file client loc_id file)
          w
        × ItemCompensated client delete
            (estimate_fees_publish_metadata client loc_id metadata)
            (metadata_path loc_id (client.hashing metadata.name) "/pre-publish-ack")
            (publish_metadata_submittable client loc_id metadata)
            (publish_metadata client loc_id metadata)
            w
        × ItemCompensated client delete
            (estimate_fees_publish_link client loc_id link)
            (link_path loc_id link.id "/pre-publish-ack")
            (publish_link_submittable client loc_id link)
            (publish_link client loc_id link)
            w
  unfolding publish_file publish_metadata publish_link
  publications-Compensated loc_id file metadata link w = (
    item_submission delete (estimate_fees_publish_file client loc_id file) _ _ w,
    item_submission delete (estimate_fees_publish_metadata client loc_id metadata) _ _ w,
    item_submission delete (estimate_fees_publish_link client loc_id link) _ _ w,
  )

  -- The acknowledgement of a file or of metadata is prepared, sent and cancelled in the same way,
  -- at another path.
  pub acknowledgements-Compensated :
      (loc_id : Uuid) (hash name_hash : Hash) (w : W)
      → ItemCompensated client delete
          (estimate_fees_acknowledge_file client loc_id hash)
          (file_path loc_id hash "/pre-ack")
          (acknowledge_file_submittable client loc_id hash)
          (acknowledge_published_file client loc_id hash)
          w
        × ItemCompensated client delete
            (estimate_fees_acknowledge_metadata client loc_id name_hash)
            (metadata_path loc_id name_hash "/pre-ack")
            (acknowledge_metadata_submittable client loc_id name_hash)
            (acknowledge_published_metadata client loc_id name_hash)
            w
  unfolding acknowledge_published_file acknowledge_published_metadata
  acknowledgements-Compensated loc_id hash name_hash w = (
    item_submission delete (estimate_fees_acknowledge_file client loc_id hash) _ _ w,
    item_submission delete (estimate_fees_acknowledge_metadata client loc_id name_hash) _ _ w,
  )

  -- The acknowledgement of a link is prepared and sent in the same way too, but when the transaction
  -- fails the preparation is put a second time, and nothing is deleted.
  pub acknowledge_published_link-repeats :
      (loc_id target : Uuid) (w : W)
      → ItemCompensated client put
          (estimate_fees_acknowledge_link client loc_id target)
          (link_path loc_id target "/pre-ack")
          (acknowledge_link_submittable client loc_id target)
          (acknowledge_published_link client loc_id target)
          w
  unfolding acknowledge_published_link
  acknowledge_published_link-repeats loc_id target w =
      item_submission put (estimate_fees_acknowledge_link client loc_id target) _ _ w
