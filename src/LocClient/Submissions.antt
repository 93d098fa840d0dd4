-- ===== src/LocClient/Submissions.antt =====
-- The submission of collection items, in AuthenticatedLocClient of packages/client/src/LocClient.ts.
pub mod Steps
pub mod Items
use logion_api.Common.{
  ℕ, zero, suc, String, Bool, true, false, Option, none, some, List, [], ◌∷◌, ◌++◌, map, Result, ok,
  throw, or_throw, if◌then◌else◌,
}
use logion_api.Common
use logion_api.Common.Int.{ℤ, pos, negsuc}
use logion_api.Common.Texts.{template}
use logion_api.Hash.{Hash}
use logion_api.HashOrContent.{HashOrContent, finalize, has_content, content_hash, size_of}
use logion_api.License.Classification.{Element, Details, new_classification, details_of}
use logion_api.License.Elements.{
  Terms, logion_classification, creative_commons, specific_license, new_creative_commons,
}
use logion_api.Calls.{
  Uuid, Piece, lit, uuid, hex, Field, text, absent, hex_text, file_entry, terms_entry, token_entry,
  Body, post, delete, Run, reading, ◌>>=◌, ◌>>◌, backend, sign, uploading, try_catch,
}
use logion_api.LocClient.{
  ItemFile, ChainToken, ChainTerms, ItemTx, Submittable, add_collection_item, batch_items,
  AuthenticatedLocClient,
}
use logion_api.LocClient.Items.{me}
use logion_api.Loc.Merging.{map_result, if_text}

-- interface ItemTokenWithRestrictedType of Token.ts
pub record ItemToken : Type 0 where
  pub type : String
  pub id : String
  pub issuance : ℤ

-- interface AddCollectionItemParams
pub record AddCollectionItemParams : Type 0 where
  pub loc_id : Uuid
  pub item_id : Hash
  pub item_description : String
  pub item_files : List HashOrContent
  pub item_token : Option ItemToken
  pub restricted_delivery : Option Bool
  pub classification : Option Details
  pub commons : Option String
  pub specific_licenses : List (Element Uuid String)

-- The configuration, the check of dates, JSON.stringify, the error of validateToken, and Hash.of("").
pub record Tools : Type 0 where
  pub classification_loc : Option Uuid
  pub commons_loc : Option Uuid
  pub is_iso_date : String → Bool
  pub stringify : Details → String
  pub token_error : ItemToken → Option String
  pub hash_of_empty : Hash

-- `type`, `tcLocId` and `details` of a terms and conditions element
unfoldable pub terms_type : Terms Uuid → String
terms_type (logion_classification element) = "logion_classification"
terms_type (creative_commons element) = "CC4.0"
terms_type (specific_license element) = "specific_license"

unfoldable pub terms_loc_id : Terms Uuid → Uuid
terms_loc_id (logion_classification element) = element.tc_loc_id
terms_loc_id (creative_commons element) = element.tc_loc_id
terms_loc_id (specific_license element) = element.tc_loc_id

unfoldable pub terms_details : (Details → String) → Terms Uuid → String
terms_details stringify (logion_classification element) = details_of stringify element
terms_details stringify (creative_commons element) = element.parameters
terms_details stringify (specific_license element) = element.parameters

-- the branches of `termsAndConditions`, before the specific licenses
unfoldable pub main_terms : Tools → Option Details → Option String → Result (List (Terms Uuid))
main_terms tools none none = ok []
main_terms tools (some parameters) (some code) =
    throw "Logion Classification and Creative Commons are mutually exclusive."
main_terms tools (some parameters) none =
    Common.◌>>=◌
      (or_throw "Missing Logion Classification LOC ID in config" tools.classification_loc)
      (λ loc_id.
        Common.◌>>=◌ (new_classification tools.is_iso_date loc_id parameters true)
          (λ element. ok (logion_classification element ∷ [])))
main_terms tools none (some code) =
    Common.◌>>=◌ (or_throw "Missing Creative Commons LOC ID in config" tools.commons_loc) (λ loc_id.
      Common.◌>>=◌ (new_creative_commons loc_id code)
        (λ element. ok (creative_commons element ∷ [])))

unfoldable pub terms_and_conditions : Tools → AddCollectionItemParams → Result (List (Terms Uuid))
terms_and_conditions tools parameters =
    Common.◌>>=◌ (main_terms tools parameters.classification (if_text parameters.commons))
      (λ terms. ok (terms ++ map specific_license parameters.specific_licenses))

unfoldable pub has_issuance : ℤ → Bool
has_issuance (pos zero) = false
has_issuance (pos (suc n)) = true
has_issuance (negsuc n) = false

unfoldable pub valid_token_or_throw : Tools → Option ItemToken → Result (Unit {0})
valid_token_or_throw tools none = ok tt
valid_token_or_throw tools (some token) = elim (tools.token_error token) [
  | some error ↦ throw (template ("Given token definition is invalid: " ∷ error ∷ []))
  | none ↦ if has_issuance token.issuance then ok tt else throw "Token must have an issuance >= 1"
]

unfoldable pub restricted : Option Bool → Bool
restricted none = false
restricted (some restricted_delivery) = restricted_delivery

abbrev pub items_path : Uuid → List Piece
items_path loc_id = lit "/api/collection/" ∷ uuid loc_id ∷ lit "/items" ∷ []

abbrev pub item_path : Uuid → Hash → List Piece
item_path loc_id item_id = lit "/api/collection/" ∷ uuid loc_id ∷ lit "/items/" ∷ hex item_id ∷ []

abbrev pub item_files_path : Uuid → Hash → List Piece
item_files_path loc_id item_id =
    lit "/api/collection/" ∷ uuid loc_id ∷ lit "/" ∷ hex item_id ∷ lit "/files" ∷ []

-- an entry of `files` in the public data
unfoldable pub public_file : Hash → HashOrContent → Result (String × Field)
public_file hash_of_empty file =
    Common.◌>>=◌ (content_hash hash_of_empty file)
      (λ hash. ok ("files", file_entry file.name file.mime_type hash))

unfoldable pub token_field : Option ItemToken → Field
token_field none = absent
token_field (some token) = token_entry token.id token.type

unfoldable pub public_data :
    Tools → AddCollectionItemParams → List HashOrContent → List (Terms Uuid) → Result Body
public_data tools parameters files terms =
    Common.◌>>=◌ (map_result (public_file tools.hash_of_empty) files) (λ file_fields. ok (
      ("itemId", hex_text parameters.item_id)
      ∷ (file_fields
          ++ (map
                (λ element. (
                  "termsAndConditions",
                  terms_entry (terms_type element) (terms_details tools.stringify element),
                ))
                terms
              ++ (("description", text parameters.item_description)
                  ∷ ("token", token_field parameters.item_token)
                  ∷ [])))))

unfoldable pub batch_all : List ItemTx → Result Submittable
batch_all [] = throw "Cannot batch with empty submittable extrinsics list"
batch_all (tx ∷ []) = ok (add_collection_item tx)
batch_all (tx ∷ tx' ∷ txs) = ok (batch_items (tx ∷ tx' ∷ txs))

module _ {W : Type 0} (client : AuthenticatedLocClient W) (tools : Tools) where
  unfoldable pub chain_file : HashOrContent → Result ItemFile
  chain_file file = Common.◌>>=◌ (content_hash tools.hash_of_empty file) (λ hash.
      Common.◌>>=◌ (size_of file) (λ size. ok (record {
        name = client.hashing file.name;
        content_type = client.hashing file.mime_type;
        hash = hash;
        size = size;
      })))

  unfoldable pub chain_token : Option ItemToken → Option ChainToken
  chain_token none = none
  chain_token (some token) = some (record {
    id = client.hashing token.id;
    type = client.hashing token.type;
    issuance = token.issuance;
  })

  unfoldable pub add_collection_item_submittable :
      AddCollectionItemParams → List HashOrContent → List (Terms Uuid) → Result ItemTx
  add_collection_item_submittable parameters item_files terms =
      Common.◌>>◌ (valid_token_or_throw tools parameters.item_token) (
        Common.◌>>=◌ (map_result finalize item_files) (λ finalized.
          Common.◌>>=◌ (map_result chain_file finalized) (λ files. ok (record {
            loc_id = parameters.loc_id;
            item_id = parameters.item_id;
            description = client.hashing parameters.item_description;
            files = files;
            token = chain_token parameters.item_token;
            restricted_delivery = restricted parameters.restricted_delivery;
            terms =
                map
                  (λ element. record {
                    tc_type = client.hashing (terms_type element);
                    tc_loc_id = terms_loc_id element;
                    details = client.hashing (terms_details tools.stringify element);
                  })
                  terms;
          }))))

  -- the body of the first loop: the item that was submitted, with its files, and its transaction
  unfoldable pub submit_item :
      AddCollectionItemParams → Run Submittable W (AddCollectionItemParams × ItemTx)
  submit_item parameters = reading (λ w. map_result finalize parameters.item_files) >>= λ files.
      reading (λ w. terms_and_conditions tools parameters) >>= λ terms.
      reading (λ w. public_data tools parameters files terms) >>= λ item.
      backend client.outside post (items_path parameters.loc_id) item
      >> reading (λ w.
        Common.◌>>=◌ (add_collection_item_submittable parameters files terms)
          (λ tx. ok (record parameters { item_files = files }, tx)))

  unfoldable pub submit_items :
      List AddCollectionItemParams → Run Submittable W (List (AddCollectionItemParams × ItemTx))
  submit_items [] = reading (λ w. ok [])
  submit_items (parameters ∷ payload) = submit_item parameters >>= λ item.
      submit_items payload >>= λ items. reading (λ w. ok (item ∷ items))

  unfoldable pub cancel_items : List AddCollectionItemParams → Run Submittable W (Unit {0})
  cancel_items [] = reading (λ w. ok tt)
  cancel_items (parameters ∷ payload) =
      backend client.outside delete (item_path parameters.loc_id parameters.item_id) []
      >> cancel_items payload

  -- `uploadItemFile`
  unfoldable pub upload_file : List Piece → HashOrContent → Run Submittable W (Unit {0})
  upload_file path file =
      reading (λ w. Common.◌>>=◌ (finalize file) (content_hash tools.hash_of_empty))
      >>= uploading client.outside path

  unfoldable pub upload_files : List Piece → List HashOrContent → Run Submittable W (Unit {0})
  upload_files path [] = reading (λ w. ok tt)
  upload_files path (file ∷ files) =
      (if has_content file then upload_file path file else reading (λ w. ok tt))
      >> upload_files path files

  unfoldable pub upload_items :
      List (AddCollectionItemParams × ItemTx) → Run Submittable W (Unit {0})
  upload_items [] = reading (λ w. ok tt)
  upload_items ((parameters, tx) ∷ items) =
      upload_files (item_files_path parameters.loc_id parameters.item_id) parameters.item_files
      >> upload_items items

  unfoldable pub add_collection_items : List AddCollectionItemParams → Run Submittable W (Unit {0})
  add_collection_items payload = submit_items payload >>= λ items.
      try_catch
        (reading (λ w. batch_all (map (λ (item : AddCollectionItemParams × ItemTx). item.1) items))
          >>= sign client.outside (me client))
        (cancel_items payload)
      >> upload_items items
