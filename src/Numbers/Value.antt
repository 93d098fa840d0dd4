-- ===== src/Numbers/Value.antt =====
-- What a scientific number is worth, independently of how it is written, and the well-formed ones.
use logion_api.Common.{
  ℕ, ◌+◌, ◌*◌, ◌^◌, ◌≡◌, refl, sym, ap, ◌∙◌, Bool, true, false, [], ◌∷◌, ◌++◌, length, arith,
  length-append, ◌&&◌, not, length-replicate,
}
use logion_api.Common.Int.{ℤ, pos, ◌+ℤ◌, ◌-ℤ◌, sub_ℕ, int_laws, parts_of_eq}
use logion_api.Common.Power.{pow_add, mul_pow_cancel}
use native.Mathlib.Nat.{mul_assoc}
use mathlib.Core.List.{append_assoc}
use mathlib.Core.Path.{subst, ◌≡⟨◌⟩◌, ◌∎}
use logion_api.Numbers.Text.{Text, zero_digit, strip_left, strip_right}
use logion_api.Numbers.Normalized.{NormalizedNumber, normalized_number}
use logion_api.Numbers.Digits.{
  AllDigits, AllDigits-strip_left, AllDigits-strip_right, strip_left_idem, strip_right_idem,
  strip_left_split, strip_right_split, value, value-append, value-zeros, zeros,
}
use logion_api.Numbers.Canonical.{number_of, both_empty}
use logion_api.Numbers.Scientific.{ScientificNumber}

-- A numeral in normal form: digits only, no zero in front, none behind the dot's last digit, and
-- no sign on zero.
pub record IsNormal (n : NormalizedNumber) : Type 0 where
  pub form : n ≡ number_of n.negative n.integer_part n.decimal_part
  pub integer_digits : AllDigits n.integer_part
  pub decimal_digits : AllDigits n.decimal_part
  pub no_zero_in_front : strip_left n.integer_part ≡ n.integer_part
  pub no_zero_behind : strip_right n.decimal_part ≡ n.decimal_part

-- The digits read as one integer.
abbrev pub mantissa : NormalizedNumber → ℕ
mantissa n = value (n.integer_part ++ n.decimal_part)

-- `number * 10 ^ -scale` is the integer `mantissa`.
abbrev pub scale : ScientificNumber → ℤ
scale x = x.ten_exponent -ℤ pos (length x.coefficient.decimal_part)

abbrev pub signed : Bool → ℕ → ℤ
signed true m = sub_ℕ 0 m
signed false m = pos m

-- In every unit 10 ^ -c in which both are written without decimals, they are the same integer.
abbrev pub SameValue : ScientificNumber → ScientificNumber → Type 0
SameValue x y =
    (c : ℤ) (p q : ℕ)
    → pos p ≡ scale x +ℤ c
    → pos q ≡ scale y +ℤ c
    → signed x.coefficient.negative (mantissa x.coefficient * 10 ^ p)
      ≡ signed y.coefficient.negative (mantissa y.coefficient * 10 ^ q)

number_of_signed :
    (b : Bool) (i d : Text) → number_of b i d ≡ number_of (b && not (both_empty i d)) i d
number_of_signed false i d = refl
number_of_signed true [] [] = refl
number_of_signed true [] (c ∷ d) = refl
number_of_signed true (c ∷ i) d = refl

-- Reading digits gives a number in normal form.
pub number_of-IsNormal :
    (b : Bool) (i d : Text)
    → AllDigits i
    → AllDigits d
    → IsNormal (number_of b (strip_left i) (strip_right d))
number_of-IsNormal b i d h k = record {
  form = number_of_signed b (strip_left i) (strip_right d);
  integer_digits = AllDigits-strip_left i h;
  decimal_digits = AllDigits-strip_right d k;
  no_zero_in_front = strip_left_idem i;
  no_zero_behind = strip_right_idem d;
}

signed-zero : (b : Bool) (n : ℕ) → signed b (0 * n) ≡ pos 0
signed-zero true n = let e : 0 * n ≡ 0 = omega arith in rw e
signed-zero false n = let e : 0 * n ≡ 0 = omega arith in rw e

-- The sign that zero loses changes no value.
pub signed-number_of :
    (b : Bool) (i d : Text) (n : ℕ)
    → signed (number_of b i d).negative (value (i ++ d) * n) ≡ signed b (value (i ++ d) * n)
signed-number_of false i d n = refl
signed-number_of true [] [] n = signed-zero false n ∙ sym (signed-zero true n)
signed-number_of true [] (c ∷ d) n = refl
signed-number_of true (c ∷ i) d n = refl

pub value-strip_left : (i d : Text) → value (strip_left i ++ d) ≡ value (i ++ d)
value-strip_left i d =
    let (k, e) = strip_left_split i in
    grind (
      arith,
      value-append i d,
      value-append (strip_left i) d,
      value-append (zeros k) (strip_left i),
      value-zeros k,
      ap value e,
    )

-- The digits that a shift of the separator leaves: those of `n`, between zeros.
pub record Shifted (n : NormalizedNumber) (offset : ℤ) (s : Text) : Type 0 where
  pub int : Text
  pub dec : Text
  pub front : ℕ
  pub back : ℕ
  pub read : normalized_number s ≡ number_of n.negative (strip_left int) (strip_right dec)
  pub int_digits : AllDigits int
  pub dec_digits : AllDigits dec
  pub digits : int ++ dec ≡ zeros front ++ ((n.integer_part ++ n.decimal_part) ++ zeros back)
  pub moved : pos (length dec) ≡ pos (length n.decimal_part) +ℤ pos back -ℤ offset

value_between : (a b : ℕ) (s : Text) → value (zeros a ++ (s ++ zeros b)) ≡ value s * 10 ^ b
value_between a b s = grind (
  arith,
  value-append (zeros a) (s ++ zeros b),
  value-append s (zeros b),
  value-zeros a,
  value-zeros b,
  ap (λ (t : ℕ). 10 ^ t) (length-replicate b zero_digit),
)

-- The zeros stripped behind the dot, and what is left in front of them.
value-strip :
    (i d : Text)
    → (k : ℕ) × (value (i ++ d) ≡ value (strip_left i ++ strip_right d) * 10 ^ k)
      × (length d ≡ length (strip_right d) + k)
value-strip i d =
    let (k, e) = strip_right_split d in
    let cut : i ++ d ≡ (i ++ strip_right d) ++ zeros k =
      ap (λ (t : Text). i ++ t) e ∙ sym (append_assoc i (strip_right d) (zeros k)) in
    (
      k,
      ap value cut
          ∙ value_between 0 k (i ++ strip_right d)
          ∙ ap (λ (m : ℕ). m * 10 ^ k) (sym (value-strip_left i (strip_right d))),
      ap length e
          ∙ length-append (strip_right d) (zeros k)
          ∙ ap (λ (m : ℕ). length (strip_right d) + m) (length-replicate k zero_digit),
    )

-- Two ways to write the same digits, in a common unit.
balance :
    (m f back k p q : ℕ) → m * 10 ^ back ≡ f * 10 ^ k → q + back ≡ p + k → m * 10 ^ p ≡ f * 10 ^ q
balance m f back k p q h e = mul_pow_cancel k (m * 10 ^ p) (f * 10 ^ q) (
    m * 10 ^ p * 10 ^ k
    ≡⟨ mul_assoc m (10 ^ p) (10 ^ k) ⟩ m * (10 ^ p * 10 ^ k)
    ≡⟨ ap (λ (t : ℕ). m * t) (sym (pow_add p k) ∙ ap (λ (t : ℕ). 10 ^ t) (sym e)) ⟩
      m * 10 ^ (q + back)
    ≡⟨ ap (λ (t : ℕ). m * t) (pow_add q back) ⟩ m * (10 ^ q * 10 ^ back)
    ≡⟨ omega arith ⟩ m * 10 ^ back * 10 ^ q
    ≡⟨ ap (λ (t : ℕ). t * 10 ^ q) h ⟩ f * 10 ^ k * 10 ^ q
    ≡⟨ omega arith ⟩ f * 10 ^ q * 10 ^ k ∎)

module _ (x : ScientificNumber) (e : ℤ) {s : Text}
    (sh : Shifted x.coefficient (x.ten_exponent -ℤ e) s) where
  pub Shifted-IsNormal : IsNormal (normalized_number s)
  Shifted-IsNormal =
      subst IsNormal (sym sh.read)
        (number_of-IsNormal x.coefficient.negative sh.int sh.dec sh.int_digits sh.dec_digits)

  shifted_mantissa : value (sh.int ++ sh.dec) ≡ mantissa x.coefficient * 10 ^ sh.back
  shifted_mantissa =
      ap value sh.digits
      ∙ value_between sh.front sh.back (x.coefficient.integer_part ++ x.coefficient.decimal_part)

  pub Shifted-SameValue :
      SameValue x (record { coefficient = normalized_number s; ten_exponent = e })
  Shifted-SameValue c p q hp hq =
      let (k, v, l) = value-strip sh.int sh.dec in
      let hq' : pos q ≡ e -ℤ pos (length (strip_right sh.dec)) +ℤ c =
        hq ∙ ap (λ (n : NormalizedNumber). e -ℤ pos (length n.decimal_part) +ℤ c) sh.read in
      let level : q + sh.back ≡ p + k =
        omega (int_laws, parts_of_eq hp, parts_of_eq hq', parts_of_eq sh.moved, l) in
      rw sh.read (
        ap (signed x.coefficient.negative) (
          balance (mantissa x.coefficient) (value (strip_left sh.int ++ strip_right sh.dec)) sh.back
            k p q (sym shifted_mantissa ∙ v) level)
        ∙ sym (
            signed-number_of x.coefficient.negative (strip_left sh.int) (strip_right sh.dec)
              (10 ^ q)))
