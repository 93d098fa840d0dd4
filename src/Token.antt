-- ===== src/Token.antt =====
-- packages/client/src/Token.ts: the types of tokens, the networks that they belong to, and the forms
-- of their identifiers. The validation of identifiers that are JSON objects or addresses is left
-- out.
pub mod Networks
pub mod Forms
use text.Mathlib.Text.{◌==◌, starts_with, find?}
use logion_api.Common.{
  ℕ, zero, suc, String, Bool, true, false, not, ◌&&◌, ◌||◌, Option, none, some, List, [], ◌∷◌,
  length, leb, if◌then◌else◌,
}
use logion_api.Common
use logion_api.Common.Texts.{includes}
use logion_api.Numbers.Text.{Text}

abbrev pub token_types : List String
token_types =
    "ethereum_erc721" ∷ "ethereum_erc1155" ∷ "goerli_erc721" ∷ "goerli_erc1155" ∷ "singular_kusama"
    ∷ "polygon_erc721" ∷ "polygon_erc1155" ∷ "polygon_mumbai_erc721" ∷ "polygon_mumbai_erc1155"
    ∷ "ethereum_erc20" ∷ "goerli_erc20" ∷ "polygon_erc20" ∷ "polygon_mumbai_erc20" ∷ "owner"
    ∷ "multiversx_devnet_esdt" ∷ "multiversx_testnet_esdt" ∷ "multiversx_esdt" ∷ "astar_psp34"
    ∷ "astar_shiden_psp34" ∷ "astar_shibuya_psp34" ∷ []

unfoldable pub is_token_type : String → Bool
is_token_type type = includes token_types type

pub data NetworkType : Type 0 where
  ethereum polkadot multiversx : NetworkType

unfoldable pub is_token_compatible_with : String → NetworkType → Bool
is_token_compatible_with type network = if type == "owner" then true else elim network [
  | ethereum ↦
      starts_with type "ethereum" || starts_with type "goerli" || starts_with type "polygon"
  | multiversx ↦ starts_with type "multiversx"
  | polkadot ↦ type == "singular_kusama" || starts_with type "astar"
]

-- `type.includes(part)`
unfoldable pub has_part : String → String → Bool
has_part type part = elim (find? type part) [ none ↦ false | some i ↦ true ]

unfoldable pub is_erc_nft : String → Bool
is_erc_nft type = has_part type "erc721" || has_part type "erc1155"

-- `[0-9a-zA-Z\-_]`
unfoldable pub is_kusama_character : ℕ → Bool
is_kusama_character c =
    leb b'0' c && leb c b'9'
    || leb b'a' c && leb c b'z'
    || leb b'A' c && leb c b'Z'
    || Common.◌==◌ c b'-'
    || Common.◌==◌ c b'_'

-- `[0-9A-Z]`
unfoldable pub is_ticker_character : ℕ → Bool
is_ticker_character c = leb b'0' c && leb c b'9' || leb b'A' c && leb c b'Z'

-- `[0-9a-f]`
unfoldable pub is_hex_character : ℕ → Bool
is_hex_character c = leb b'0' c && leb c b'9' || leb b'a' c && leb c b'f'

unfoldable pub all_match : (ℕ → Bool) → Text → Bool
all_match test [] = true
all_match test (c ∷ text) = test c && all_match test text

-- `/^x+$/`, for a class of characters x
unfoldable pub some_match : (ℕ → Bool) → Text → Bool
some_match test [] = false
some_match test (c ∷ text) = all_match test (c ∷ text)

-- `/^[0-9a-zA-Z\-_]+$/.test(tokenId)`
unfoldable pub is_singular_kusama_id : Text → Bool
is_singular_kusama_id token_id = some_match is_kusama_character token_id

-- the end of the form of an ESDT identifier: `(-[0-9a-f]+)?$`
unfoldable pub ends_nonce : Text → Bool
ends_nonce [] = true
ends_nonce (c ∷ text) = Common.◌==◌ c b'-' && some_match is_hex_character text

-- `[0-9a-f]{n}(-[0-9a-f]+)?$`
unfoldable pub ends_random : ℕ → Text → Bool
ends_random zero text = ends_nonce text
ends_random (suc n) [] = false
ends_random (suc n) (c ∷ text) = is_hex_character c && ends_random n text

-- `[0-9A-Z]*-[0-9a-f]{6}(-[0-9a-f]+)?$`: a dash is no character of the first part
unfoldable pub ends_ticker : Text → Bool
ends_ticker [] = false
ends_ticker (c ∷ text) =
    let more = ends_ticker text in
    if Common.◌==◌ c b'-' then ends_random 6 text else is_ticker_character c && more

-- `/^[0-9A-Z]+-[0-9a-f]{6}(-[0-9a-f]+)?$/.test(tokenId)`
unfoldable pub is_multiversx_esdt_id : Text → Bool
is_multiversx_esdt_id [] = false
is_multiversx_esdt_id (c ∷ text) = is_ticker_character c && ends_ticker text
