-- ===== src/Authentication.antt =====
-- class AccountTokens of packages/client/src/AuthenticationClient.ts: the tokens of accounts, by the
-- key of the account. The keys of a store are read back as the accounts they are the keys of, so an
-- account is its key; a date is its time.
pub mod Store
use logion_api.Common.{
  ℕ, String, Bool, false, Option, none, some, List, [], ◌∷◌, map, ltb, if◌then◌else◌,
}
use logion_api.Common.Texts.{property}
use logion_api.Http.{put}

-- interface Token of Http.ts
pub record Token : Type 0 where
  pub value : String
  pub expiration_date_time : ℕ

-- class AccountTokens: Record<string, Token>
abbrev pub AccountTokens : Type 0
AccountTokens = List (String × Token)

-- `get`; without an address the key is the empty text
unfoldable pub get : AccountTokens → Option String → Option Token
get tokens none = property tokens ""
get tokens (some address) = property tokens address

unfoldable pub addresses : AccountTokens → List String
addresses tokens = map (λ entry. entry.0) tokens

unfoldable pub put_token : Option Token → String → AccountTokens → AccountTokens
put_token none address store = store
put_token (some token) address store = put address token store

-- the loop over the addresses, which may set the token of each
unfoldable pub put_tokens : (String → Option Token) → List String → AccountTokens → AccountTokens
put_tokens token_of [] store = store
put_tokens token_of (address ∷ rest) store =
    put_tokens token_of rest (put_token (token_of address) address store)

unfoldable pub merge : AccountTokens → AccountTokens → AccountTokens
merge store tokens = put_tokens (λ address. property tokens address) (addresses tokens) store

-- `token && token.expirationDateTime > now`
unfoldable pub live : ℕ → Option Token → Option Token
live now none = none
live now (some token) = if ltb now token.expiration_date_time then some token else none

unfoldable pub clean_up : ℕ → AccountTokens → AccountTokens
clean_up now store =
    put_tokens (λ address. live now (get store (some address))) (addresses store) []

unfoldable pub is_live : ℕ → Option Token → Bool
is_live now none = false
is_live now (some token) = ltb now token.expiration_date_time

unfoldable pub is_authenticated : ℕ → Option String → AccountTokens → Bool
is_authenticated now none store = false
is_authenticated now (some address) store = is_live now (get store (some address))
