-- ===== src/Tests/Tokens.antt =====
-- Types and identifiers of tokens: packages/client/src/Token.ts.
use logion_api.Common.{ℕ, String, ◌≡◌, ◌↔◌, refl, true, false, ◌∷◌, ◌++◌, length}
use logion_api.Numbers.Text.{Text, codes}
use logion_api.Token.{
  is_token_type, is_token_compatible_with, polkadot, has_part, is_erc_nft, is_kusama_character,
  is_ticker_character, is_hex_character, all_match, some_match, is_singular_kusama_id, ends_nonce,
  ends_random, ends_ticker, is_multiversx_esdt_id,
}
use logion_api.Token.Forms.{IsNonce, is_multiversx_esdt_id_iff}

tokens : Unit {0}
unfolding is_token_type is_token_compatible_with has_part is_erc_nft is_kusama_character
    is_ticker_character is_hex_character all_match some_match is_singular_kusama_id ends_nonce
    ends_random ends_ticker is_multiversx_esdt_id
tokens = tt

types :
    (is_token_type "astar_psp34" ≡ true)
    × (is_token_type "bitcoin" ≡ false)
    × (is_token_compatible_with "astar_psp34" polkadot ≡ true)
    × (is_erc_nft "polygon_mumbai_erc1155" ≡ true)
    × (is_erc_nft "polygon_mumbai_erc20" ≡ false)
unfolding tokens
types = (refl, refl, refl, refl, refl)

-- The examples of the tests beside the source.
identifiers :
    (is_multiversx_esdt_id (codes "LGNTOK-123abc") ≡ true)
    × (is_multiversx_esdt_id (codes "LGNTOK-123abc-01") ≡ true)
    × (is_multiversx_esdt_id (codes "LGNTOK-123ab") ≡ false)
    × (is_multiversx_esdt_id (codes "LGNTOK-123abc-") ≡ false)
    × (is_singular_kusama_id (codes "15057162-acba02847598b67746-DSTEST1-00000001") ≡ true)
    × (is_singular_kusama_id (codes "") ≡ false)
unfolding tokens
identifiers = (refl, refl, refl, refl, refl, refl)

abbrev astar : String
astar = "astar_psp34"

astar_is_type : is_token_type astar ≡ true
unfolding tokens
astar_is_type = refl

is_multiversx_esdt_id_iff_example : (is_multiversx_esdt_id (codes "T-123abc-01") ≡ true) ↔ (
    (c : ℕ) × (ticker : Text) × (random : Text) × (nonce : Text) × (codes "T-123abc-01"
      ≡ c ∷ (ticker ++ b'-' ∷ (random ++ nonce)))
    × (all_match is_ticker_character (c ∷ ticker) ≡ true)
    × (length random ≡ 6)
    × (all_match is_hex_character random ≡ true)
    × IsNonce nonce)
is_multiversx_esdt_id_iff_example = is_multiversx_esdt_id_iff (codes "T-123abc-01")
