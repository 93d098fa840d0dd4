-- ===== src/Tests/Accounts.antt =====
-- Tokens of accounts: packages/client/src/AuthenticationClient.ts.
use logion_api.Common.{ℕ, ◌≡◌, refl, false, none, some, [], ◌∷◌, arith}
use logion_api.Http.{put}
use logion_api.Authentication.{
  Token, AccountTokens, get, addresses, put_token, put_tokens, merge, live, clean_up, is_live,
  is_authenticated,
}
use logion_api.Authentication.Store.{newest, get-merge, is_authenticated-clean_up}

accounts : Unit {0}
unfolding put get addresses put_token put_tokens merge live clean_up is_live is_authenticated
accounts = tt

abbrev token_until : ℕ → Token
token_until time = record { value = "jwt"; expiration_date_time = time }

abbrev first_session : AccountTokens
first_session = ("Polkadot:alice", token_until 10) ∷ ("Polkadot:bob", token_until 20) ∷ []

abbrev second_session : AccountTokens
second_session = ("Polkadot:alice", token_until 30) ∷ ("Ethereum:0xc0", token_until 5) ∷ []

merged :
    (merge first_session second_session
      ≡ ("Polkadot:alice", token_until 30)
        ∷ ("Polkadot:bob", token_until 20)
        ∷ ("Ethereum:0xc0", token_until 5)
        ∷ [])
    × (clean_up 15 first_session ≡ ("Polkadot:bob", token_until 20) ∷ [])
    × (is_authenticated 15 (some "Polkadot:alice") first_session ≡ false)
    × (is_authenticated 15 none first_session ≡ false)
unfolding accounts
merged = (refl, refl, refl, refl)

get-merge_example :
    get (merge first_session second_session) (some "Polkadot:bob")
    ≡ newest (get second_session (some "Polkadot:bob")) (get first_session (some "Polkadot:bob"))
get-merge_example = get-merge first_session second_session "Polkadot:bob"

is_authenticated-clean_up_example :
    is_authenticated 17 (some "Polkadot:bob") (clean_up 15 first_session)
    ≡ is_authenticated 17 (some "Polkadot:bob") first_session
is_authenticated-clean_up_example =
    is_authenticated-clean_up 15 17 (some "Polkadot:bob") first_session (omega arith)
