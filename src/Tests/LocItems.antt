-- ===== src/Tests/LocItems.antt =====
-- The calls of a LOC client: packages/client/src/LocClient.ts and packages/client/src/Error.ts.
use logion_api.Common.{ℕ, suc, ◌≡◌, refl, true, false, some, none, [], ◌∷◌, ok, throw, replicate}
use logion_api.Common.Int.{pos}
use logion_api.Hash.{Hash}
use logion_api.Calls.{
  Uuid, Call, request, sign_and_send, upload, CallError, Outcome, done, failed, put, post, delete,
  flag, text, ◌>>=◌, ◌>>◌, backend, sign,
}
use logion_api.Calls.Compensation.{Compensated, checked}
use logion_api.LocClient.{
  ValidAccountId, polkadot, ethereum, FileParams, LinkParams, CollectionParams, Submittable,
  AuthenticatedLocClient, close, create_logion_transaction_loc,
}
use logion_api.LocClient.Items.{
  PublishedMetadata, file_path, metadata_path, link_path, ensure_own_funds, estimate_inclusion,
  publish_file_submittable, estimate_fees_publish_file, publish_file, acknowledge_file_submittable,
  estimate_fees_acknowledge_file, acknowledge_published_file, publish_metadata_submittable,
  estimate_fees_publish_metadata, publish_metadata, acknowledge_metadata_submittable,
  estimate_fees_acknowledge_metadata, acknowledge_published_metadata, publish_link_submittable,
  estimate_fees_publish_link, publish_link, acknowledge_link_submittable,
  estimate_fees_acknowledge_link, acknowledge_published_link, me,
}
use logion_api.LocClient.Items.Compensations.{
  ItemCompensated, publications-Compensated, acknowledgements-Compensated,
  acknowledge_published_link-repeats,
}
use logion_api.LocClient.Opening.{OpenPolkadotLocParams}
use logion_api.LocClient.Lifecycle.{
  loc_path, seal_or_null, close_query, accept_transaction_loc_submittable,
  accept_identity_loc_submittable, other_identity_loc, void_submittable, accept_transaction_loc,
  accept_identity_loc, close_loc, void_loc, accept_loc, sign_if,
}
use logion_api.LocClient.Lifecycle.Endings.{endings-Compensated}

abbrev alice : ValidAccountId
alice = record { address = "5GrwvaEF"; type = polkadot }

abbrev hash_of_zeros : Hash
hash_of_zeros = record { bytes = replicate 32 0 }

-- An inclusion costs 3, a byte 1, and an account has 100; `W` is the number of the calls so far.
abbrev client_with : (Call Submittable → ℕ → Outcome × ℕ) → AuthenticatedLocClient ℕ
client_with outside = record {
  outside = outside;
  api = λ w. record {
    payment_info = λ submittable origin. ok 3;
    query_file_storage_fee = λ entries size. ok size;
    query_certificate_fee = λ issuance. ok 10;
    free_balance = λ origin. ok 100;
    existential_deposit = 2;
  };
  current_address = alice;
  hashing = λ value. hash_of_zeros;
}

abbrev rejection : CallError
rejection = record { message = "rejected"; response_data = none }

-- Nobody signs here.
abbrev refusing : Call Submittable → ℕ → Outcome × ℕ
refusing call w = elim call [
  | request verb path body ↦ (done, suc w)
  | sign_and_send signer_id submittable ↦ (failed rejection, suc w)
  | upload path hash ↦ (done, suc w)
]

abbrev pub client : AuthenticatedLocClient ℕ
client = client_with refusing

abbrev loc : Uuid
loc = "a-loc"

abbrev target : Uuid
target = "another-loc"

abbrev small_file : FileParams
small_file = record { hash = hash_of_zeros; nature = hash_of_zeros; size = 7; submitter = alice }

abbrev link : LinkParams
link = record { id = target; nature = hash_of_zeros; submitter = alice }

abbrev metadata : PublishedMetadata
metadata = record { name = "color"; value = "red"; submitter = alice }

item_calls : Unit {0}
unfolding ◌>>=◌ ◌>>◌ backend sign sign_if accept_loc accept_transaction_loc
    accept_transaction_loc_submittable accept_identity_loc accept_identity_loc_submittable
    other_identity_loc
item_calls = tt

-- The backend is not told of a LOC whose transaction is refused, ...
refused_acceptance : accept_transaction_loc client loc none (some target) true 0 ≡ (
  throw "rejected",
  sign_and_send "5GrwvaEF" (create_logion_transaction_loc loc target) ∷ [],
  1,
)
unfolding item_calls
refused_acceptance = refl

-- ... but of one that needs no transaction.
account_acceptance :
    accept_transaction_loc client loc (some alice) none false 0
    ≡ (ok tt, request post (loc_path loc "/accept") [] ∷ [], 1)
unfolding item_calls
account_acceptance = refl

-- An Ethereum account needs a sponsorship.
unsponsored :
    accept_identity_loc client loc (some (record alice { type = ethereum })) none true 0
    ≡ (throw "Other Identity LOCs can only be created with a sponsorship", [], 0)
unfolding item_calls
unsponsored = refl

publications-Compensated_example :
    ItemCompensated client delete
      (estimate_fees_publish_file client loc small_file)
      (file_path loc hash_of_zeros "/pre-publish-ack")
      (publish_file_submittable client loc small_file)
      (publish_file client loc small_file)
      0
    × ItemCompensated client delete
        (estimate_fees_publish_metadata client loc metadata)
        (metadata_path loc hash_of_zeros "/pre-publish-ack")
        (publish_metadata_submittable client loc metadata)
        (publish_metadata client loc metadata)
        0
    × ItemCompensated client delete
        (estimate_fees_publish_link client loc link)
        (link_path loc target "/pre-publish-ack")
        (publish_link_submittable client loc link)
        (publish_link client loc link)
        0
publications-Compensated_example = publications-Compensated client loc small_file metadata link 0

acknowledgements-Compensated_example :
    ItemCompensated client delete
      (estimate_fees_acknowledge_file client loc hash_of_zeros)
      (file_path loc hash_of_zeros "/pre-ack")
      (acknowledge_file_submittable client loc hash_of_zeros)
      (acknowledge_published_file client loc hash_of_zeros)
      0
    × ItemCompensated client delete
        (estimate_fees_acknowledge_metadata client loc hash_of_zeros)
        (metadata_path loc hash_of_zeros "/pre-ack")
        (acknowledge_metadata_submittable client loc hash_of_zeros)
        (acknowledge_published_metadata client loc hash_of_zeros)
        0
acknowledgements-Compensated_example =
    acknowledgements-Compensated client loc hash_of_zeros hash_of_zeros 0

acknowledge_published_link-repeats_example :
    ItemCompensated client put
      (estimate_fees_acknowledge_link client loc target)
      (link_path loc target "/pre-ack")
      (acknowledge_link_submittable client loc target)
      (acknowledge_published_link client loc target)
      0
acknowledge_published_link-repeats_example = acknowledge_published_link-repeats client loc target 0

abbrev opened : OpenPolkadotLocParams
opened = record {
  loc_id = loc;
  legal_officer_address = "5FHneW46";
  legal_fee = some (record { canonical = pos 5 });
  metadata = record { name = "color"; value = "red" } ∷ [];
  files = record { content_hash = hash_of_zeros; size = 7; nature = "photo" } ∷ [];
  links = [];
  auto_publish = true;
}

abbrev limits : CollectionParams
limits = record {
  last_block_submission = some 0;
  max_size = some 10;
  can_upload = true;
  value_fee = record { canonical = pos 1 };
  collection_item_fee = record { canonical = pos 1 };
  tokens_record_fee = record { canonical = pos 1 };
}

endings-Compensated_example :
    Compensated client.outside true
      (checked client.outside
        (estimate_inclusion client (close loc (seal_or_null none) true))
        (ensure_own_funds client)
        0)
      (request post (loc_path loc "/close") (("autoAck", flag true) ∷ []))
      (sign_and_send (me client) (close loc (seal_or_null none) true))
      (request delete (loc_path loc (close_query true)) [])
      0
      (close_loc client loc none true 0).0
      (close_loc client loc none true 0).1
    × Compensated client.outside true
        (checked client.outside
          (estimate_inclusion client (void_submittable loc (some target)))
          (ensure_own_funds client)
          0)
        (request post (loc_path loc "/void") (("reason", text "mistake") ∷ []))
        (sign_and_send (me client) (void_submittable loc (some target)))
        (request delete (loc_path loc "/void") [])
        0
        (void_loc client loc (some target) "mistake" 0).0
        (void_loc client loc (some target) "mistake" 0).1
endings-Compensated_example = endings-Compensated client loc none true (some target) "mistake" 0
