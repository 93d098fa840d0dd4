-- ===== src/Hash.antt =====
-- class Hash of packages/node-api/src/Hash.ts: 32 bytes and their hexadecimal form. The digest,
-- SHA-256 of a third-party library over the bytes of a text, is a parameter.
pub mod Hex
use logion_api.Common.{
  ℕ, ◌+◌, ◌*◌, ◌-◌, ◌/◌, ◌%◌, String, Bool, true, false, ◌&&◌, ◌||◌, List, [], ◌∷◌, length, leb,
  ◌==◌, Result, ok, ◌>>=◌, ◌>>◌, if◌then◌else◌, guard,
}
use logion_api.Common.Texts.{template, show}
use logion_api.Numbers.Text.{Text, text_eq}

pub record Hash : Type 0 where
  pub bytes : List ℕ

unfoldable pub is_valid_bytes : List ℕ → Bool
is_valid_bytes bytes = length bytes == 32

unfoldable pub new_hash : List ℕ → Result Hash
new_hash bytes =
    guard (is_valid_bytes bytes)
      (template ("Array must be 32 bytes long, got " ∷ show (length bytes) ∷ []))
    >> ok (record { bytes = bytes })

-- `Hash.of`: the digest of the text, as a hash
unfoldable pub hash_of : (String → List ℕ) → String → Result Hash
hash_of digest text = new_hash (digest text)

-- a hexadecimal digit of `Buffer.toString('hex')`
unfoldable pub hex_digit : ℕ → ℕ
hex_digit n = if leb n 9 then n + 48 else n + 87

unfoldable pub hex_digits : List ℕ → Text
hex_digits [] = []
hex_digits (b ∷ bytes) = hex_digit (b / 16) ∷ hex_digit (b % 16) ∷ hex_digits bytes

unfoldable pub to_hex : Hash → Text
to_hex hash = b'0' ∷ b'x' ∷ hex_digits hash.bytes

unfoldable pub equal_to : Hash → Hash → Bool
equal_to hash other = text_eq (to_hex hash) (to_hex other)

-- a match of `[0-9a-f]`
unfoldable pub is_hex_digit : ℕ → Bool
is_hex_digit c = leb 48 c && leb c 57 || leb 97 c && leb c 102

-- `search(/[^0-9a-f]/) === -1`
unfoldable pub all_hex : Text → Bool
all_hex [] = true
all_hex (c ∷ text) = is_hex_digit c && all_hex text

unfoldable pub is_valid_hex_hash : Text → Bool
is_valid_hex_hash [] = false
is_valid_hex_hash (c ∷ []) = false
is_valid_hex_hash (c ∷ d ∷ text) =
    (c == b'0') && (d == b'x') && (length (c ∷ d ∷ text) == 66) && all_hex text

unfoldable pub digit_value : ℕ → ℕ
digit_value c = if leb c 57 then c - 48 else c - 87

-- `Buffer.from(text, 'hex')`, for a text of hexadecimal digits
unfoldable pub bytes_of : Text → List ℕ
bytes_of [] = []
bytes_of (c ∷ []) = []
bytes_of (c ∷ d ∷ text) = (digit_value c * 16 + digit_value d) ∷ bytes_of text

-- `hex.substring(2)`
unfoldable pub after_prefix : Text → Text
after_prefix [] = []
after_prefix (c ∷ []) = []
after_prefix (c ∷ d ∷ text) = text

unfoldable pub from_hex : Text → Result Hash
from_hex hex =
    guard (is_valid_hex_hash hex)
      "Invalid hex string, must start with '0x' followed by 64 hexadecimal digits"
    >> new_hash (bytes_of (after_prefix hex))
