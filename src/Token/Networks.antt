-- ===== src/Token/Networks.antt =====
-- The networks of the types of tokens, packages/client/src/Token.ts.
use text.Mathlib.Text.{◌==◌}
use logion_api.Common.{
  ◌≡◌, ◌⊎◌, inl, inr, refl, subst, String, Bool, true, false, List, [], ◌∷◌, if◌then◌else◌, eq_iff,
  Bool-cases,
}
use logion_api.Common.Texts.{includes}
use logion_api.Token.{
  NetworkType, ethereum, polkadot, multiversx, token_types, is_token_type, is_token_compatible_with,
}

-- A property of each of the texts is one of any text that they include.
All : (String → Type 0) → List String → Type 0
All P [] = Unit
All P (x ∷ xs) = P x × All P xs

includes-All :
    (P : String → Type 0) (xs : List String) (x : String) → All P xs → includes xs x ≡ true → P x
unfolding All
includes-All P [] x all h = cc
includes-All P (y ∷ xs) x (first, all) h = elim (Bool-cases (y == x)) [
  | inl same ↦ subst P ((eq_iff y x).0 same) first
  | inr other ↦
      includes-All P xs x all
        (subst (λ (b : Bool). (if b then true else includes xs x) ≡ true) other h)
]

-- A type of one network.
unfoldable pub OneNetwork : String → Type 0
OneNetwork type =
    (network : NetworkType) × (is_token_compatible_with type network ≡ true)
    × ((other : NetworkType) → is_token_compatible_with type other ≡ true → other ≡ network)

of_ethereum :
    (type : String)
    → is_token_compatible_with type ethereum ≡ true
    → is_token_compatible_with type polkadot ≡ false
    → is_token_compatible_with type multiversx ≡ false
    → (type ≡ "owner") ⊎ OneNetwork type
unfolding OneNetwork
of_ethereum type its first second = inr (
  ethereum,
  its,
  λ other. elim other as (λ k. is_token_compatible_with type k ≡ true → k ≡ ethereum) [
    | ethereum ↦ λ h. refl
    | polkadot ↦ λ h. cc
    | multiversx ↦ λ h. cc
  ],
)

of_polkadot :
    (type : String)
    → is_token_compatible_with type polkadot ≡ true
    → is_token_compatible_with type ethereum ≡ false
    → is_token_compatible_with type multiversx ≡ false
    → (type ≡ "owner") ⊎ OneNetwork type
unfolding OneNetwork
of_polkadot type its first second = inr (
  polkadot,
  its,
  λ other. elim other as (λ k. is_token_compatible_with type k ≡ true → k ≡ polkadot) [
    | ethereum ↦ λ h. cc
    | polkadot ↦ λ h. refl
    | multiversx ↦ λ h. cc
  ],
)

of_multiversx :
    (type : String)
    → is_token_compatible_with type multiversx ≡ true
    → is_token_compatible_with type ethereum ≡ false
    → is_token_compatible_with type polkadot ≡ false
    → (type ≡ "owner") ⊎ OneNetwork type
unfolding OneNetwork
of_multiversx type its first second = inr (
  multiversx,
  its,
  λ other. elim other as (λ k. is_token_compatible_with type k ≡ true → k ≡ multiversx) [
    | ethereum ↦ λ h. cc
    | polkadot ↦ λ h. cc
    | multiversx ↦ λ h. refl
  ],
)

All-token_types : All (λ type. (type ≡ "owner") ⊎ OneNetwork type) token_types
unfolding All is_token_compatible_with
All-token_types = (
  of_ethereum _ refl refl refl,
  (
    of_ethereum _ refl refl refl,
    (
      of_ethereum _ refl refl refl,
      (
        of_ethereum _ refl refl refl,
        (
          of_polkadot _ refl refl refl,
          (
            of_ethereum _ refl refl refl,
            (
              of_ethereum _ refl refl refl,
              (
                of_ethereum _ refl refl refl,
                (
                  of_ethereum _ refl refl refl,
                  (
                    of_ethereum _ refl refl refl,
                    (
                      of_ethereum _ refl refl refl,
                      (
                        of_ethereum _ refl refl refl,
                        (
                          of_ethereum _ refl refl refl,
                          (
                            inl refl,
                            (
                              of_multiversx _ refl refl refl,
                              (
                                of_multiversx _ refl refl refl,
                                (
                                  of_multiversx _ refl refl refl,
                                  (
                                    of_polkadot _ refl refl refl,
                                    (
                                      of_polkadot _ refl refl refl,
                                      (of_polkadot _ refl refl refl, tt),
                                    ),
                                  ),
                                ),
                              ),
                            ),
                          ),
                        ),
                      ),
                    ),
                  ),
                ),
              ),
            ),
          ),
        ),
      ),
    ),
  ),
)

-- Every type of token but the owner's belongs to one network.
is_token_type-OneNetwork :
    (type : String) → is_token_type type ≡ true → (type ≡ "owner") ⊎ OneNetwork type
unfolding is_token_type
is_token_type-OneNetwork type h =
    includes-All (λ t. (t ≡ "owner") ⊎ OneNetwork t) token_types type All-token_types h
