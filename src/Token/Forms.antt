-- ===== src/Token/Forms.antt =====
-- The form of ESDT identifiers, packages/client/src/Token.ts.
use logion_api.Common.{
  ℕ, zero, suc, ◌≡◌, ◌↔◌, ◌⊎◌, inl, inr, refl, sym, ap, subst, ◌∙◌, Bool, true, false, ◌&&◌, [],
  ◌∷◌, ◌++◌, length, ◌==◌, ==_iff, if◌then◌else◌, Bool-cases, arith,
}
use logion_api.Numbers.Text.{Text}
use logion_api.Token.{
  is_ticker_character, is_hex_character, all_match, some_match, ends_nonce, ends_random,
  ends_ticker, is_multiversx_esdt_id,
}

-- `(-[0-9a-f]+)?`
unfoldable pub IsNonce : Text → Type 0
IsNonce text =
    (text ≡ [])
    ⊎ ((digits : Text) × (text ≡ b'-' ∷ digits) × (some_match is_hex_character digits ≡ true))

-- `[0-9a-f]{n}(-[0-9a-f]+)?`
pub IsRandom : ℕ → Text → Type 0
IsRandom n text =
    (random : Text) × (nonce : Text) × (text ≡ random ++ nonce)
    × (length random ≡ n)
    × (all_match is_hex_character random ≡ true)
    × IsNonce nonce

-- `[0-9A-Z]*-[0-9a-f]{6}(-[0-9a-f]+)?`
pub IsTicker : Text → Type 0
IsTicker text =
    (ticker : Text) × (rest : Text) × (text ≡ ticker ++ b'-' ∷ rest)
    × (all_match is_ticker_character ticker ≡ true)
    × IsRandom 6 rest

and_iff : (a b : Bool) → ((a && b) ≡ true) ↔ ((a ≡ true) × (b ≡ true))
and_iff a b = ground arith

IsNonce-ends_nonce : (text : Text) → ends_nonce text ≡ true → IsNonce text
unfolding ends_nonce IsNonce
IsNonce-ends_nonce [] h = inl refl
IsNonce-ends_nonce (c ∷ text) h =
    let (dash, digits) = (and_iff (c == b'-') (some_match is_hex_character text)).0 h in
    inr (text, ap (λ (d : ℕ). d ∷ text) ((==_iff c b'-').0 dash), digits)

IsRandom-ends_random : (n : ℕ) (text : Text) → ends_random n text ≡ true → IsRandom n text
unfolding ends_random IsRandom all_match
IsRandom-ends_random zero text h = ([], text, refl, refl, refl, IsNonce-ends_nonce text h)
IsRandom-ends_random (suc n) [] h = cc
IsRandom-ends_random (suc n) (c ∷ text) h =
    let (hex, h') = (and_iff (is_hex_character c) (ends_random n text)).0 h in
    let (random, nonce, e, size, all, form) = IsRandom-ends_random n text h' in
    (
      c ∷ random,
      nonce,
      ap (λ (t : Text). c ∷ t) e,
      ap suc size,
      (and_iff (is_hex_character c) (all_match is_hex_character random)).1 (hex, all),
      form,
    )

-- the test on the first character after the first part
dash_or_ticker :
    (c : ℕ) (random more : Bool)
    → (if c == b'-' then random else is_ticker_character c && more) ≡ true
    → ((c ≡ b'-') × (random ≡ true)) ⊎ ((is_ticker_character c ≡ true) × (more ≡ true))
dash_or_ticker c random more h = elim (Bool-cases (c == b'-')) [
  | inl dash ↦ inl (
    (==_iff c b'-').0 dash,
    subst (λ (b : Bool). (if b then random else is_ticker_character c && more) ≡ true) dash h,
  )
  | inr other ↦ inr (
      (and_iff (is_ticker_character c) more).0 (
        subst (λ (b : Bool). (if b then random else is_ticker_character c && more) ≡ true) other h))
]

IsTicker-ends_ticker : (text : Text) → ends_ticker text ≡ true → IsTicker text
unfolding ends_ticker IsTicker all_match
IsTicker-ends_ticker [] h = cc
IsTicker-ends_ticker (c ∷ text) h =
    elim (dash_or_ticker c (ends_random 6 text) (ends_ticker text) h) [
      | inl (dash, h') ↦
          ([], text, ap (λ (d : ℕ). d ∷ text) dash, refl, IsRandom-ends_random 6 text h')
      | inr (letter, h') ↦
          let (ticker, rest, e, all, form) = IsTicker-ends_ticker text h' in
          (
            c ∷ ticker,
            rest,
            ap (λ (t : Text). c ∷ t) e,
            (and_iff (is_ticker_character c) (all_match is_ticker_character ticker)).1
                (letter, all),
            form,
          )
    ]

ends_nonce-IsNonce : (text : Text) → IsNonce text → ends_nonce text ≡ true
unfolding ends_nonce IsNonce
ends_nonce-IsNonce text (inl e) = subst (λ (t : Text). ends_nonce t ≡ true) (sym e) refl
ends_nonce-IsNonce text (inr (digits, e, h)) = subst (λ (t : Text). ends_nonce t ≡ true) (sym e) h

ends_random-append :
    (n : ℕ) (random nonce : Text)
    → length random ≡ n
    → all_match is_hex_character random ≡ true
    → IsNonce nonce
    → ends_random n (random ++ nonce) ≡ true
unfolding ends_random all_match
ends_random-append zero [] nonce size all form = ends_nonce-IsNonce nonce form
ends_random-append zero (c ∷ random) nonce size all form = absurd (omega arith)
ends_random-append (suc n) [] nonce size all form = absurd (omega arith)
ends_random-append (suc n) (c ∷ random) nonce size all form =
    let (hex, all') = (and_iff (is_hex_character c) (all_match is_hex_character random)).0 all in
    (and_iff (is_hex_character c) (ends_random n (random ++ nonce))).1
      (hex, ends_random-append n random nonce (omega arith) all' form)

not_dash : (c : ℕ) → is_ticker_character c ≡ true → (c == b'-') ≡ false
unfolding is_ticker_character
not_dash c h = ground arith

ends_ticker-append :
    (ticker rest : Text)
    → all_match is_ticker_character ticker ≡ true
    → ends_random 6 rest ≡ true
    → ends_ticker (ticker ++ b'-' ∷ rest) ≡ true
unfolding ends_ticker all_match
ends_ticker-append [] rest all h = h
ends_ticker-append (c ∷ ticker) rest all h =
    let (letter, all') =
      (and_iff (is_ticker_character c) (all_match is_ticker_character ticker)).0 all in
    rw (not_dash c letter, letter) (ends_ticker-append ticker rest all' h)

-- An ESDT identifier is a ticker of digits and capitals, a dash, six hexadecimal digits, and maybe a
-- dash and one or more hexadecimal digits.
pub is_multiversx_esdt_id_iff :
    (text : Text)
    → (is_multiversx_esdt_id text ≡ true) ↔ (
        (c : ℕ) × (ticker : Text) × (random : Text) × (nonce : Text) × (text
          ≡ c ∷ (ticker ++ b'-' ∷ (random ++ nonce)))
        × (all_match is_ticker_character (c ∷ ticker) ≡ true)
        × (length random ≡ 6)
        × (all_match is_hex_character random ≡ true)
        × IsNonce nonce)
unfolding is_multiversx_esdt_id all_match IsTicker IsRandom
is_multiversx_esdt_id_iff [] = (λ h. cc, λ (c, ticker, random, nonce, e, all, size, hex, form). cc)
is_multiversx_esdt_id_iff (d ∷ text) = (
  λ h.
      let (letter, h') = (and_iff (is_ticker_character d) (ends_ticker text)).0 h in
      let (ticker, rest, e, all, form) = IsTicker-ends_ticker text h' in
      let (random, nonce, e', size, hex, form') = form in
      (
        d,
        ticker,
        random,
        nonce,
        ap (λ (t : Text). d ∷ t) (e ∙ ap (λ (r : Text). ticker ++ b'-' ∷ r) e'),
        (and_iff (is_ticker_character d) (all_match is_ticker_character ticker)).1 (letter, all),
        size,
        hex,
        form',
      ),
  λ (c, ticker, random, nonce, e, all, size, hex, form).
      let (letter, all') =
        (and_iff (is_ticker_character c) (all_match is_ticker_character ticker)).0 all in
      subst (λ (t : Text). is_multiversx_esdt_id t ≡ true) (sym e)
        ((and_iff (is_ticker_character c) (ends_ticker (ticker ++ b'-' ∷ (random ++ nonce)))).1 (
          letter,
          ends_ticker-append ticker (random ++ nonce) all'
              (ends_random-append 6 random nonce size hex form),
        )),
)
