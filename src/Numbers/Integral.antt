-- ===== src/Numbers/Integral.antt =====
-- `unnormalize` of packages/node-api/src/numbers.ts, as the input of `BigInt`: an integer exactly
-- when no decimals are left.
use logion_api.Common.{
  ℕ, ◌-◌, ◌≡◌, refl, ap, ◌∙◌, Bool, true, false, [], ◌∷◌, ◌++◌, length, arith, length-append,
  Result, ok, ◌==◌,
}
use logion_api.Common.Int.{ℤ}
use logion_api.Numbers.Text.{Text, dot, minus, starts_with, ends_with, substring, text_eq}
use logion_api.Numbers.Normalized.{NormalizedNumber, unnormalize}
use logion_api.Numbers.Digits.{IsDigit, AllDigits, value}
use logion_api.Numbers.Canonical.{number_of, render, sign, substring_before}
use logion_api.Numbers.BigInt.{
  big_int, not_an_integer, is_digit, big_int-digits, big_int-minus, big_int-render,
}
use logion_api.Numbers.Value.{IsNormal, signed}

ends_with-dot : (s : Text) → ends_with dot (s ++ dot ∷ []) ≡ true
unfolding ends_with
ends_with-dot [] = refl
ends_with-dot (c ∷ []) = refl
ends_with-dot (c ∷ d ∷ s) = ends_with-dot (d ∷ s)

ends_with_digit : (c : ℕ) (d : Text) → AllDigits (c ∷ d) → ends_with dot (c ∷ d) ≡ false
unfolding ends_with
ends_with_digit c [] h = ground arith
ends_with_digit c (e ∷ d) (p, h) = ends_with_digit e d h

ends_with-append :
    (s : Text) (c : ℕ) (d : Text) → ends_with dot (s ++ c ∷ d) ≡ ends_with dot (c ∷ d)
unfolding ends_with
ends_with-append [] c d = refl
ends_with-append (e ∷ []) c d = refl
ends_with-append (e ∷ f ∷ s) c d = ends_with-append (f ∷ s) c d

ends_with-digits :
    (s : Text) (c : ℕ) (d : Text) → AllDigits (c ∷ d) → ends_with dot (s ++ dot ∷ c ∷ d) ≡ false
unfolding ends_with
ends_with-digits s c d h = ends_with-append s dot (c ∷ d) ∙ ends_with_digit c d h

without_last : (s : Text) → substring 0 (length (s ++ dot ∷ []) - 1) (s ++ dot ∷ []) ≡ s
without_last s =
    let e : length (s ++ dot ∷ []) - 1 ≡ length s = omega (arith, length-append s (dot ∷ [])) in
    rw e (substring_before s (dot ∷ []))

digit-ne-dot : (c : ℕ) → IsDigit c → (c == dot) ≡ false
digit-ne-dot c h = ground arith

unnormalize_integer :
    (b : Bool) (c : ℕ) (i : Text)
    → AllDigits (c ∷ i)
    → unnormalize (number_of b (c ∷ i) []) ≡ sign b ++ c ∷ i
unfolding unnormalize starts_with text_eq
unnormalize_integer true c i h = rw (ends_with-dot (minus ∷ c ∷ i)) (without_last (minus ∷ c ∷ i))
unnormalize_integer false c i (p, h) =
    rw (digit-ne-dot c p, ends_with-dot (c ∷ i)) (without_last (c ∷ i))

unnormalize_decimal :
    (b : Bool) (i : Text) (c : ℕ) (d : Text)
    → AllDigits i
    → AllDigits (c ∷ d)
    → (j : Text) × (unnormalize (number_of b i (c ∷ d)) ≡ render b j (c ∷ d)) × AllDigits j
unfolding unnormalize starts_with text_eq
unnormalize_decimal true [] c d h k = ([], rw (ends_with-digits (minus ∷ []) c d k), tt)
unnormalize_decimal true (e ∷ i) c d h k = (e ∷ i, rw (ends_with-digits (minus ∷ e ∷ i) c d k), h)
unnormalize_decimal false [] c d h k = (48 ∷ [], refl, (omega arith, tt))
unnormalize_decimal false (e ∷ i) c d (p, h) k =
    (e ∷ i, rw (digit-ne-dot e p, ends_with-digits (e ∷ i) c d k), (p, h))

big_int-unnormalize_integer :
    (b : Bool) (i : Text)
    → AllDigits i
    → big_int (unnormalize (number_of b i [])) ≡ ok (signed b (value i))
big_int-unnormalize_integer true [] h = unfold unnormalize big_int is_digit text_eq in refl
big_int-unnormalize_integer false [] h = unfold unnormalize big_int is_digit text_eq in refl
big_int-unnormalize_integer true (c ∷ i) h =
    ap big_int (unnormalize_integer true c i h) ∙ big_int-minus (c ∷ i) h (cc)
big_int-unnormalize_integer false (c ∷ i) h =
    ap big_int (unnormalize_integer false c i h) ∙ big_int-digits (c ∷ i) h

-- What `BigInt(n.unnormalize())` gives for a number in normal form.
abbrev pub integer_of : NormalizedNumber → Text → Result ℤ
integer_of n [] = ok (signed n.negative (value n.integer_part))
integer_of n (c ∷ d) = not_an_integer

big_int-number_of :
    (b : Bool) (i d : Text)
    → AllDigits i
    → AllDigits d
    → big_int (unnormalize (number_of b i d))
      ≡ integer_of (record { normalized = i; integer_part = i; decimal_part = d; negative = b }) d
big_int-number_of b i [] h k = big_int-unnormalize_integer b i h
big_int-number_of b i (c ∷ d) h k =
    let (j, e, digits) = unnormalize_decimal b i c d h k in
    ap big_int e ∙ big_int-render b j (c ∷ d) digits

-- A number in normal form is an integer for `BigInt` exactly when it has no decimals.
pub big_int-unnormalize :
    (n : NormalizedNumber) → IsNormal n → big_int (unnormalize n) ≡ integer_of n n.decimal_part
big_int-unnormalize n v =
    ap (λ (m : NormalizedNumber). big_int (unnormalize m)) v.form
    ∙ big_int-number_of n.negative n.integer_part n.decimal_part v.integer_digits v.decimal_digits
    ∙ same n.decimal_part
  where
    same :
        (d : Text)
        → integer_of
            (record {
              normalized = n.integer_part;
              integer_part = n.integer_part;
              decimal_part = n.decimal_part;
              negative = n.negative;
            })
            d
          ≡ integer_of n d
    same [] = refl
    same (c ∷ d) = refl
