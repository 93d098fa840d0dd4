-- ===== src/Tests/Submissions.antt =====
-- The submission of collection items: packages/client/src/LocClient.ts.
use logion_api.Common.{◌≡◌, refl, true, some, none, [], ◌∷◌, throw, replicate}
use logion_api.Common.Int.{pos}
use logion_api.Hash.{Hash}
use logion_api.HashOrContent.{finalize, has_content, content_hash, size_of, matches_content}
use logion_api.Calls.{
  request, text, absent, hex_text, token_entry, post, ◌>>=◌, ◌>>◌, backend, sign, uploading,
  try_catch,
}
use logion_api.LocClient.Submissions.{
  AddCollectionItemParams, Tools, main_terms, terms_and_conditions, has_issuance,
  valid_token_or_throw, restricted, items_path, public_file, token_field, public_data, batch_all,
  chain_file, chain_token, add_collection_item_submittable, submit_item, submit_items, cancel_items,
  upload_file, upload_files, upload_items, add_collection_items,
}
use logion_api.Loc.Merging.{map_result, if_text}
use logion_api.Tests.LocItems.{client}

abbrev id_of_ones : Hash
id_of_ones = record { bytes = replicate 32 17 }

abbrev id_of_twos : Hash
id_of_twos = record { bytes = replicate 32 34 }

-- No identifier of a token is valid here.
abbrev tools : Tools
tools = record {
  classification_loc = none;
  commons_loc = none;
  is_iso_date = λ date. true;
  stringify = λ details. "";
  token_error = λ token. some "no such token";
  hash_of_empty = record { bytes = replicate 32 0 };
}

abbrev plain_item : AddCollectionItemParams
plain_item = record {
  loc_id = "a-loc";
  item_id = id_of_ones;
  item_description = "first";
  item_files = [];
  item_token = none;
  restricted_delivery = none;
  classification = none;
  commons = none;
  specific_licenses = [];
}

abbrev token_item : AddCollectionItemParams
token_item = record plain_item {
  item_id = id_of_twos;
  item_description = "second";
  item_token = some (record { type = "owner"; id = "x"; issuance = pos 1 });
}

submissions : Unit {0}
unfolding finalize has_content content_hash size_of matches_content ◌>>=◌ ◌>>◌ backend sign
    uploading try_catch main_terms terms_and_conditions has_issuance valid_token_or_throw restricted
    public_file token_field public_data batch_all chain_file chain_token
    add_collection_item_submittable submit_item submit_items cancel_items upload_file upload_files
    upload_items add_collection_items map_result if_text
submissions = tt

-- The public data of both items were posted when the token of the second is refused, and they stay.
left_behind : add_collection_items client tools (plain_item ∷ token_item ∷ []) 0 ≡ (
  throw "Given token definition is invalid: no such token",
  request post
        (items_path "a-loc")
        (("itemId", hex_text id_of_ones) ∷ ("description", text "first") ∷ ("token", absent) ∷ [])
      ∷ request post (items_path "a-loc") (
          ("itemId", hex_text id_of_twos)
          ∷ ("description", text "second")
          ∷ ("token", token_entry "x" "owner")
          ∷ [])
      ∷ [],
  2,
)
unfolding submissions
left_behind = refl
