-- ===== src/Numbers/Exact.antt =====
-- Numbers in normal form that are worth the same: through which conversions an integer comes back.
use native.Mathlib.Nat.{mul_assoc}
use mathlib.Core.List.{append-nil}
use mathlib.Core.Path.{subst}
use logion_api.Common.{
  ℕ, suc, ◌+◌, ◌*◌, ◌^◌, ◌≡◌, ◌≢◌, refl, sym, ap, ◌∙◌, Bool, true, false, [], ◌∷◌, ◌++◌, length,
  arith,
}
use logion_api.Common.Int.{pos, ◌+ℤ◌, ◌-ℤ◌, int_laws, parts_of_eq, pos_part, neg_part}
use logion_api.Common.Power.{pow_add, pow_suc, mul_pow_cancel}
use logion_api.Numbers.Text.{Text, strip_right}
use logion_api.Numbers.Digits.{AllDigits, value, value-append, value-mod_ten}
use logion_api.Numbers.Scientific.{ScientificNumber}
use logion_api.Numbers.Value.{IsNormal, SameValue, scale, mantissa, signed}

signed_parts : (b : Bool) (m : ℕ) → pos_part (signed b m) + neg_part (signed b m) ≡ m
signed_parts true m = ground arith
signed_parts false m = omega arith

pub abs_of_signed : (b c : Bool) (m n : ℕ) → signed b m ≡ signed c n → m ≡ n
abs_of_signed b c m n h =
    omega (arith, signed_parts b m, signed_parts c n, ap pos_part h, ap neg_part h)

both_zero : (m n : ℕ) → signed true m ≡ signed false n → (m ≡ 0) × (n ≡ 0)
both_zero m n h = ground arith

both_zero_signed :
    (m n k : ℕ)
    → signed true (m * 10 ^ k) ≡ signed false (n * 10 ^ k)
    → signed true m ≡ signed false n
both_zero_signed m n k h =
    let (p, q) = both_zero (m * 10 ^ k) (n * 10 ^ k) h in
    let e : m ≡ 0 = mul_pow_cancel k m 0 (p ∙ omega arith) in
    let e' : n ≡ 0 = mul_pow_cancel k n 0 (q ∙ omega arith) in rw (e, e')

signed_cancel :
    (b c : Bool) (m n k : ℕ)
    → signed b (m * 10 ^ k) ≡ signed c (n * 10 ^ k)
    → signed b m ≡ signed c n
signed_cancel true true m n k h =
    ap (signed true) (mul_pow_cancel k m n (abs_of_signed true true _ _ h))
signed_cancel false false m n k h =
    ap (signed false) (mul_pow_cancel k m n (abs_of_signed false false _ _ h))
signed_cancel true false m n k h = both_zero_signed m n k h
signed_cancel false true m n k h = sym (both_zero_signed n m k (sym h))

widen : (m p k : ℕ) → m * 10 ^ p * 10 ^ k ≡ m * 10 ^ (p + k)
widen m p k = mul_assoc m (10 ^ p) (10 ^ k) ∙ ap (λ (t : ℕ). m * t) (sym (pow_add p k))

pub SameValue-trans : (x y z : ScientificNumber) → SameValue x y → SameValue y z → SameValue x z
SameValue-trans x y z f g c p q hp hq =
    let w = scale y +ℤ c in
    let k = neg_part w in
    let c' = c +ℤ pos k in
    let hp' : pos (p + k) ≡ scale x +ℤ c' = omega (int_laws, parts_of_eq hp) in
    let hq' : pos (q + k) ≡ scale z +ℤ c' = omega (int_laws, parts_of_eq hq) in
    let hr : pos (pos_part w) ≡ scale y +ℤ c' = omega int_laws in
    signed_cancel x.coefficient.negative z.coefficient.negative _ _ k (
      ap (signed x.coefficient.negative) (widen (mantissa x.coefficient) p k)
      ∙ f c' (p + k) (pos_part w) hp' hr
      ∙ g c' (pos_part w) (q + k) hr hq'
      ∙ ap (signed z.coefficient.negative) (sym (widen (mantissa z.coefficient) q k)))

-- A multiple of ten ends in a zero.
no_decimals :
    (i d : Text) (m k : ℕ)
    → AllDigits d
    → strip_right d ≡ d
    → value (i ++ d) ≡ m * 10 ^ (length d + k)
    → d ≡ []
no_decimals i [] m k h t e = refl
no_decimals i (c ∷ d) m k h t e = absurd (
    value-mod_ten c d h t (
      grind (
        arith,
        e,
        value-append i (c ∷ d),
        pow_suc (length d),
        mul_assoc (value i) 10 (10 ^ length d),
        pow_add (length (c ∷ d)) k,
        mul_assoc 10 (10 ^ length d) (10 ^ k),
        mul_assoc m 10 (10 ^ length d * 10 ^ k),
      )))

abs_eq :
    (x y : ScientificNumber) (p q : ℕ)
    → signed x.coefficient.negative (mantissa x.coefficient * 10 ^ p)
      ≡ signed y.coefficient.negative (mantissa y.coefficient * 10 ^ q)
    → mantissa x.coefficient * 10 ^ p ≡ mantissa y.coefficient * 10 ^ q
abs_eq x y p q h = abs_of_signed x.coefficient.negative y.coefficient.negative _ _ h

module _ (x y : ScientificNumber) (v : IsNormal y.coefficient) (f : SameValue x y) where
  -- A whole number of the power of ten that it is converted to has no decimals left, ...
  pub whole-no_decimals :
      (k : ℕ) → scale x ≡ y.ten_exponent +ℤ pos k → y.coefficient.decimal_part ≡ []
  whole-no_decimals k h =
      let d = y.coefficient.decimal_part in
      let c = pos (length d) -ℤ y.ten_exponent in
      let e = f c (length d + k) 0 (omega (int_laws, parts_of_eq h)) (omega int_laws) in
      no_decimals y.coefficient.integer_part d (mantissa x.coefficient) k v.decimal_digits
        v.no_zero_behind (omega (arith, abs_eq x y (length d + k) 0 e))

  -- ... and its integer digits are its value.
  pub whole-value :
      (k : ℕ)
      → scale x ≡ y.ten_exponent +ℤ pos k
      → signed y.coefficient.negative (value y.coefficient.integer_part)
        ≡ signed x.coefficient.negative (mantissa x.coefficient * 10 ^ k)
  whole-value k h =
      let none_left = whole-no_decimals k h in
      let size = ap length none_left in
      let c = pos 0 -ℤ y.ten_exponent in
      let e = f c k 0 (omega (int_laws, parts_of_eq h)) (omega (int_laws, size)) in
      let whole : mantissa y.coefficient ≡ value y.coefficient.integer_part =
        ap (λ (t : Text). value (y.coefficient.integer_part ++ t)) none_left
        ∙ ap value (append-nil y.coefficient.integer_part) in
      ap (signed y.coefficient.negative) (omega (arith, whole)) ∙ sym e

  -- A number with a decimal below that power of ten keeps decimals.
  pub fraction-decimals :
      (c : ℕ) (d : Text) (k : ℕ)
      → IsNormal x.coefficient
      → x.coefficient.decimal_part ≡ c ∷ d
      → scale x +ℤ pos (suc k) ≡ y.ten_exponent
      → y.coefficient.decimal_part ≢ []
  fraction-decimals c d k w written h none_left =
      let size = ap length none_left in
      let i = x.coefficient.integer_part in
      let e =
        f (pos 0 -ℤ scale x) 0 (suc k) (omega int_laws) (omega (int_laws, parts_of_eq h, size)) in
      value-mod_ten c d (subst AllDigits written w.decimal_digits)
        (subst (λ (t : Text). strip_right t ≡ t) written w.no_zero_behind)
        (grind (
          arith,
          abs_eq x y 0 (suc k) e,
          ap (λ (t : Text). value (i ++ t)) written,
          value-append i (c ∷ d),
          pow_suc (length d),
          pow_suc k,
          mul_assoc (value i) 10 (10 ^ length d),
          mul_assoc (mantissa y.coefficient) 10 (10 ^ k),
        ))
