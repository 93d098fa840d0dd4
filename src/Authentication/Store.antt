-- ===== src/Authentication/Store.antt =====
-- What the stores of tokens hold, AccountTokens of packages/client/src/AuthenticationClient.ts.
use logion_api.Common.{
  ℕ, ◌≤◌, ◌≡◌, inl, inr, refl, sym, ap, ◌∙◌, subst, String, false, Option, none, some, List, [],
  ◌∷◌, ltb, if◌then◌else◌, In, Option-cases, eq_iff, arith, Bool-cases,
}
use logion_api.Common.Texts.{property}
use logion_api.Http.Partition.{property-put}
use logion_api.Authentication.{
  Token, AccountTokens, get, addresses, put_token, put_tokens, merge, live, clean_up, is_live,
  is_authenticated,
}
use text.Mathlib.Text.{◌==◌}

property-In :
    (tokens : AccountTokens) (key : String) (token : Token)
    → property tokens key ≡ some token
    → In key (addresses tokens)
unfolding addresses
property-In [] key token h = absurd cc
property-In ((k, t) ∷ tokens) key token h = elim (Bool-cases (k == key)) [
  | inl same ↦ inl (sym ((eq_iff k key).0 same))
  | inr other ↦ inr (
      property-In tokens key token
        (subst (λ b. (if b then some t else property tokens key) ≡ some token) other h))
]

-- a write at another key
property-put_token_other :
    (token : Option Token) (k key : String) (store : AccountTokens)
    → (k == key) ≡ false
    → property (put_token token k store) key ≡ property store key
unfolding put_token
property-put_token_other none k key store h = refl
property-put_token_other (some token) k key store h = property-put k key token store ∙ rw (h) refl

property-put_token_self :
    (key : String) (token : Token) (store : AccountTokens)
    → property (put_token (some token) key store) key ≡ some token
unfolding put_token
property-put_token_self key token store =
    property-put key key token store ∙ rw ((eq_iff key key).1 refl) refl

module _ (token_of : String → Option Token) where
  -- a key without a token keeps what it has
  property-put_tokens-none :
      (keys : List String) (key : String) (store : AccountTokens)
      → token_of key ≡ none
      → property (put_tokens token_of keys store) key ≡ property store key
  unfolding put_tokens put_token
  property-put_tokens-none [] key store h = refl
  property-put_tokens-none (k ∷ keys) key store h = elim (Bool-cases (k == key)) [
    | inl same ↦
        let no_token : token_of k ≡ none = ap token_of ((eq_iff k key).0 same) ∙ h in
        rw (no_token) (property-put_tokens-none keys key store h)
    | inr other ↦
        property-put_tokens-none keys key (put_token (token_of k) k store) h
        ∙ property-put_token_other (token_of k) k key store other
  ]

  written :
      (k key : String) (token : Token) (store : AccountTokens)
      → token_of key ≡ some token
      → k ≡ key
      → property (put_token (token_of k) k store) key ≡ some token
  written k key token store h same =
      subst (λ j. property (put_token (token_of j) j store) key ≡ some token) (sym same)
        (rw (h) (property-put_token_self key token store))

  put_tokens_kept :
      (keys : List String) (key : String) (token : Token) (store : AccountTokens)
      → token_of key ≡ some token
      → property store key ≡ some token
      → property (put_tokens token_of keys store) key ≡ some token
  unfolding put_tokens put_token
  put_tokens_kept [] key token store h e = e
  put_tokens_kept (k ∷ keys) key token store h e =
      put_tokens_kept keys key token (put_token (token_of k) k store) h
        (elim (Bool-cases (k == key)) [
          | inl same ↦ written k key token store h ((eq_iff k key).0 same)
          | inr other ↦ property-put_token_other (token_of k) k key store other ∙ e
        ])

  property-put_tokens-some :
      (keys : List String) (key : String) (token : Token) (store : AccountTokens)
      → token_of key ≡ some token
      → In key keys
      → property (put_tokens token_of keys store) key ≡ some token
  unfolding put_tokens put_token
  property-put_tokens-some [] key token store h e = elim e [ ]
  property-put_tokens-some (k ∷ keys) key token store h (inl same) =
      put_tokens_kept keys key token (put_token (token_of k) k store) h
        (written k key token store h (sym same))
  property-put_tokens-some (k ∷ keys) key token store h (inr later) =
      property-put_tokens-some keys key token (put_token (token_of k) k store) h later

live-In :
    (now : ℕ) (store : AccountTokens) (key : String) (token : Token)
    → live now (property store key) ≡ some token
    → In key (addresses store)
unfolding live
live-In now store key token h = elim (Option-cases (property store key)) [
  | inl missing ↦ absurd cc
  | inr (found, e) ↦ property-In store key found e
]

-- Cleaning up keeps the tokens that have not expired, and no other.
get-clean_up :
    (now : ℕ) (store : AccountTokens) (address : String)
    → get (clean_up now store) (some address) ≡ live now (get store (some address))
unfolding get clean_up
get-clean_up now store address = elim (Option-cases (live now (property store address))) [
  | inl gone ↦
      property-put_tokens-none (λ a. live now (property store a)) (addresses store) address [] gone
      ∙ sym gone
  | inr (token, kept) ↦
      property-put_tokens-some (λ a. live now (property store a)) (addresses store) address token []
        kept (live-In now store address token kept)
      ∙ sym kept
]

pub newest : Option Token → Option Token → Option Token
newest none kept = kept
newest (some token) kept = some token

-- After a merge an account has its token of the merged tokens, if they have one for it, and its own
-- otherwise.
pub get-merge :
    (store tokens : AccountTokens) (address : String)
    → get (merge store tokens) (some address)
      ≡ newest (get tokens (some address)) (get store (some address))
unfolding get merge newest
get-merge store tokens address = elim (Option-cases (property tokens address)) [
  | inl missing ↦
      property-put_tokens-none (λ a. property tokens a) (addresses tokens) address store missing
      ∙ rw (missing) refl
  | inr (token, found) ↦
      property-put_tokens-some (λ a. property tokens a) (addresses tokens) address token store found
        (property-In tokens address token found)
      ∙ rw (found) refl
]

too_late : (now later e : ℕ) → now ≤ later → ltb now e ≡ false → false ≡ ltb later e
too_late now later e h over = ground arith

is_live-live :
    (now later : ℕ) (token : Option Token)
    → now ≤ later
    → is_live later (live now token) ≡ is_live later token
unfolding is_live live
is_live-live now later none h = refl
is_live-live now later (some token) h = elim (Bool-cases (ltb now token.expiration_date_time)) [
  | inl more ↦ rw (more) refl
  | inr over ↦ rw (over) (too_late now later token.expiration_date_time h over)
]

-- Cleaning up the tokens at a time changes for no account if it is authenticated, then or
-- later.
pub is_authenticated-clean_up :
    (now later : ℕ) (address : Option String) (store : AccountTokens)
    → now ≤ later
    → is_authenticated later address (clean_up now store) ≡ is_authenticated later address store
unfolding is_authenticated
is_authenticated-clean_up now later none store h = refl
is_authenticated-clean_up now later (some address) store h =
    ap (is_live later) (get-clean_up now store address)
    ∙ is_live-live now later (get store (some address)) h
