-- ===== src/HashOrContent.antt =====
-- class HashOrContent of packages/client/src/Hash.ts: a file that is given by its content or by a
-- description. The hash and the size that a platform computes of a content are in its record.
use logion_api.Common.{
  ℕ, String, Bool, true, false, Option, none, some, Result, ok, throw, or_throw, if◌then◌else◌,
}
use logion_api.Hash.{Hash, equal_to}

-- interface File
pub record File : Type 0 where
  pub name : String
  pub mime_type : String
  pub content_hash : Hash
  pub content_size : ℕ

pub record HashOrContent : Type 0 where
  pub hash : Option Hash
  pub content : Option File
  pub finalized : Bool
  pub size : Option ℕ
  pub mime_type : String
  pub name : String

unfoldable pub from_description : String → Hash → ℕ → String → HashOrContent
from_description name hash size mime_type = record {
  hash = some hash;
  content = none;
  finalized = true;
  size = some size;
  mime_type = mime_type;
  name = name;
}

unfoldable pub from_content : File → HashOrContent
from_content content = record {
  hash = none;
  content = some content;
  finalized = false;
  size = none;
  mime_type = content.mime_type;
  name = content.name;
}

unfoldable pub has_content : HashOrContent → Bool
has_content file = elim file.content [ none ↦ false | some content ↦ true ]

-- the hash that was there before, if any, is the one of the content
unfoldable pub matches_content : Option Hash → Hash → Bool
matches_content none computed = true
matches_content (some hash) computed = equal_to computed hash

unfoldable pub finalize : HashOrContent → Result HashOrContent
finalize file = elim file.content [
  | none ↦ ok file
  | some content ↦
      if file.finalized
      then ok file
      else if matches_content file.hash content.content_hash
      then ok (record file {
        hash = some content.content_hash;
        size = some content.content_size;
        finalized = true;
      })
      else throw "Provided hash does not match content"
]

-- `contentHash`, with Hash.of("")
unfoldable pub content_hash : Hash → HashOrContent → Result Hash
content_hash hash_of_empty file =
    if file.finalized
    then ok (elim file.hash [ none ↦ hash_of_empty | some hash ↦ hash ])
    else throw "Call finalize() first"

unfoldable pub size_of : HashOrContent → Result ℕ
size_of file = or_throw "Not finalized" file.size
