-- ===== src/Currency/Conversions.antt =====
-- Conversions of packages/node-api/src/Currency.ts between amounts, prefixed numbers and strings.
use logion_api.Common.{
  ℕ, suc, ◌-◌, ◌*◌, ◌^◌, ◌≤◌, ◌<◌, ◌≡◌, ◌≢◌, refl, sym, ap, ◌∙◌, Bool, false, Option, none, some,
  [], ◌∷◌, ◌++◌, length, arith, Result, ok, ◌>>=◌, throw, leb, if◌then◌else◌, inl, inr, Bool-cases,
}
use mathlib.Core.Path.{subst}
use mathlib.Core.List.{append-nil}
use logion_api.Common.Int.{ℤ, pos, ◌+ℤ◌, int_laws}
use logion_api.Numbers.Text.{Text, strip_left, strip_right}
use logion_api.Numbers.Normalized.{NormalizedNumber, normalized_number, unnormalize}
use logion_api.Numbers.Digits.{AllDigits, value}
use logion_api.Numbers.Canonical.{
  number_of, render, normalized_number-render, normalized_number-signed,
}
use logion_api.Numbers.Scientific.{ScientificNumber}
use logion_api.Numbers.Scientific
use logion_api.Numbers.Value.{
  IsNormal, SameValue, scale, mantissa, signed, number_of-IsNormal, signed-number_of,
  value-strip_left,
}
use logion_api.Numbers.Shift.{convert_to-IsNormal, convert_to-SameValue}
use logion_api.Numbers.BigInt.{print, big_int, print_parts, not_an_integer}
use logion_api.Numbers.Integral.{integer_of, big_int-unnormalize}
use logion_api.Numbers.Exact.{SameValue-trans, whole-no_decimals, whole-value, fraction-decimals}
use logion_api.Numbers.Prefixed.{
  UnitPrefix, no_prefix, atto, PrefixedNumber, of_normalized, of_text, coefficient, convert_to,
}
use logion_api.Currency.{
  Lgnt, from_canonical_prefixed_number, from, from_prefixed_number, to_canonical_prefixed_number,
  to_prefixed_number,
}

prefixed_convert-IsNormal :
    (u : UnitPrefix) (p : PrefixedNumber)
    → IsNormal p.scientific_number.coefficient
    → IsNormal (convert_to u p).scientific_number.coefficient
unfolding convert_to of_normalized
prefixed_convert-IsNormal u p v = convert_to-IsNormal p.scientific_number u.ten_exponent v

prefixed_convert-SameValue :
    (u : UnitPrefix) (p : PrefixedNumber)
    → IsNormal p.scientific_number.coefficient
    → SameValue p.scientific_number (convert_to u p).scientific_number
unfolding convert_to of_normalized Scientific.convert_to
prefixed_convert-SameValue u p v = convert_to-SameValue p.scientific_number u.ten_exponent v

exponent-convert :
    (u : UnitPrefix) (p : PrefixedNumber)
    → (convert_to u p).scientific_number.ten_exponent ≡ u.ten_exponent
unfolding convert_to of_normalized
exponent-convert u p = refl

integer_of_whole :
    (n : NormalizedNumber)
    → n.decimal_part ≡ []
    → integer_of n n.decimal_part ≡ ok (signed n.negative (value n.integer_part))
integer_of_whole n h = rw h

integer_of_fraction : (n : NormalizedNumber) (d : Text) → d ≢ [] → integer_of n d ≡ not_an_integer
integer_of_fraction n [] h = absurd (h refl)
integer_of_fraction n (c ∷ d) h = refl

-- `x` is worth `p`, in the smallest unit and in normal form.
record IsCanonicalForm (p : PrefixedNumber) (x : PrefixedNumber) : Type 0 where
  normal : IsNormal x.scientific_number.coefficient
  same : SameValue p.scientific_number x.scientific_number
  smallest : x.scientific_number.ten_exponent ≡ atto.ten_exponent

canonical_form :
    (p : PrefixedNumber)
    → IsNormal p.scientific_number.coefficient
    → IsCanonicalForm p (convert_to atto p)
canonical_form p v = record {
  normal = prefixed_convert-IsNormal atto p v;
  same = prefixed_convert-SameValue atto p v;
  smallest = exponent-convert atto p;
}

IsCanonicalForm-again :
    (p q : PrefixedNumber) → IsCanonicalForm p q → IsCanonicalForm p (convert_to atto q)
IsCanonicalForm-again p q c = record {
  normal = prefixed_convert-IsNormal atto q c.normal;
  same =
      SameValue-trans p.scientific_number q.scientific_number (convert_to atto q).scientific_number
        c.same (prefixed_convert-SameValue atto q c.normal);
  smallest = exponent-convert atto q;
}

module _ (p x : PrefixedNumber) (c : IsCanonicalForm p x) where
  -- A whole number of the smallest unit becomes that integer.
  big_int_whole :
      (k : ℕ)
      → scale p.scientific_number ≡ atto.ten_exponent +ℤ pos k
      → big_int (unnormalize x.scientific_number.coefficient)
        ≡ ok (
            signed p.scientific_number.coefficient.negative
              (mantissa p.scientific_number.coefficient * 10 ^ k))
  big_int_whole k h =
      let h' = h ∙ ap (λ (e : ℤ). e +ℤ pos k) (sym c.smallest) in
      let y = x.scientific_number in
      big_int-unnormalize y.coefficient c.normal
      ∙ integer_of_whole y.coefficient
          (whole-no_decimals p.scientific_number y c.normal c.same k h')
      ∙ ap ok (whole-value p.scientific_number y c.normal c.same k h')

  -- A number with more decimals is refused.
  big_int_fraction :
      (e : ℕ) (d : Text) (k : ℕ)
      → IsNormal p.scientific_number.coefficient
      → p.scientific_number.coefficient.decimal_part ≡ e ∷ d
      → scale p.scientific_number +ℤ pos (suc k) ≡ atto.ten_exponent
      → big_int (unnormalize x.scientific_number.coefficient) ≡ not_an_integer
  big_int_fraction e d k w written h =
      let y = x.scientific_number in
      big_int-unnormalize y.coefficient c.normal
      ∙ integer_of_fraction y.coefficient y.coefficient.decimal_part (
          fraction-decimals p.scientific_number y c.normal c.same e d k w written
            (h ∙ sym c.smallest))

abbrev amount_of : Result ℤ → Result Lgnt
amount_of r = do z ← r; ok (record { canonical = z })

from_canonical_prefixed_number_lem :
    (p : PrefixedNumber)
    → from_canonical_prefixed_number p
      ≡ amount_of (big_int (unnormalize (convert_to atto p).scientific_number.coefficient))
unfolding from_canonical_prefixed_number coefficient
from_canonical_prefixed_number_lem p = refl

from_prefixed_number_lem :
    (p : PrefixedNumber)
    → from_prefixed_number p
      ≡ amount_of (
          big_int (unnormalize (convert_to atto (convert_to atto p)).scientific_number.coefficient))
unfolding from_prefixed_number
from_prefixed_number_lem p = from_canonical_prefixed_number_lem (convert_to atto p)

-- The form of an amount that is printed: its integer, in the smallest unit.
record IsPrinted (z : ℤ) (x : PrefixedNumber) : Type 0 where
  normal : IsNormal x.scientific_number.coefficient
  smallest : scale x.scientific_number ≡ atto.ten_exponent +ℤ pos 0
  worth :
      signed x.scientific_number.coefficient.negative
        (mantissa x.scientific_number.coefficient * 10 ^ 0)
      ≡ z

to_canonical_prefixed_number-IsPrinted :
    (a : Lgnt) → IsPrinted a.canonical (to_canonical_prefixed_number a)
unfolding to_canonical_prefixed_number of_text of_normalized strip_right
to_canonical_prefixed_number-IsPrinted a =
    let (b, s, printed, digits, worth) = print_parts a.canonical in
    let read : normalized_number (print a.canonical) ≡ number_of b (strip_left s) [] =
      ap normalized_number printed ∙ normalized_number-signed b s digits in
    record {
      normal = subst IsNormal (sym read) (number_of-IsNormal b s [] digits tt);
      smallest = rw read (omega int_laws);
      worth = rw read (
          signed-number_of b (strip_left s) [] (10 ^ 0)
          ∙ ap (signed b) (omega (arith, value-strip_left s [], ap value (append-nil s)))
          ∙ worth);
    }

via_unit :
    (u : UnitPrefix) (x : PrefixedNumber)
    → IsNormal x.scientific_number.coefficient
    → IsCanonicalForm x (convert_to atto (convert_to atto (convert_to u x)))
via_unit u x v =
    let y = convert_to u x in
    let c =
      IsCanonicalForm-again y (convert_to atto y)
        (canonical_form y (prefixed_convert-IsNormal u x v)) in
    record {
      normal = c.normal;
      same =
          SameValue-trans x.scientific_number y.scientific_number
            (convert_to atto (convert_to atto y)).scientific_number
            (prefixed_convert-SameValue u x v) c.same;
      smallest = c.smallest;
    }

from-convert :
    (u : UnitPrefix) (a : Lgnt)
    → from_prefixed_number (convert_to u (to_canonical_prefixed_number a)) ≡ ok a
from-convert u a =
    let x = to_canonical_prefixed_number a in
    let printed = to_canonical_prefixed_number-IsPrinted a in
    from_prefixed_number_lem (convert_to u x)
    ∙ ap amount_of (
        big_int_whole x (convert_to atto (convert_to atto (convert_to u x)))
          (via_unit u x printed.normal) 0 printed.smallest
        ∙ ap ok printed.worth)

-- An amount written in any unit, and read back, is the same amount.
pub from_prefixed_number-to_prefixed_number :
    (unit : Option UnitPrefix) (a : Lgnt) → from_prefixed_number (to_prefixed_number unit a) ≡ ok a
unfolding to_prefixed_number
from_prefixed_number-to_prefixed_number none a = from-convert no_prefix a
from_prefixed_number-to_prefixed_number (some unit) a = from-convert unit a

-- So is an amount in its canonical form.
pub from_canonical_prefixed_number-to_canonical_prefixed_number :
    (a : Lgnt) → from_canonical_prefixed_number (to_canonical_prefixed_number a) ≡ ok a
from_canonical_prefixed_number-to_canonical_prefixed_number a =
    let x = to_canonical_prefixed_number a in
    let printed = to_canonical_prefixed_number-IsPrinted a in
    from_canonical_prefixed_number_lem x
    ∙ ap amount_of (
        big_int_whole x (convert_to atto x) (canonical_form x printed.normal) 0 printed.smallest
        ∙ ap ok printed.worth)

module _ (p : PrefixedNumber) (v : IsNormal p.scientific_number.coefficient) where
  pub from_prefixed_number_whole :
      (k : ℕ)
      → scale p.scientific_number ≡ atto.ten_exponent +ℤ pos k
      → from_prefixed_number p
        ≡ ok (record {
          canonical =
              signed p.scientific_number.coefficient.negative
                (mantissa p.scientific_number.coefficient * 10 ^ k);
        })
  from_prefixed_number_whole k h =
      from_prefixed_number_lem p
      ∙ ap amount_of (
          big_int_whole p (convert_to atto (convert_to atto p))
            (IsCanonicalForm-again p (convert_to atto p) (canonical_form p v)) k h)

  pub from_prefixed_number_fraction :
      (e : ℕ) (d : Text) (k : ℕ)
      → p.scientific_number.coefficient.decimal_part ≡ e ∷ d
      → scale p.scientific_number +ℤ pos (suc k) ≡ atto.ten_exponent
      → from_prefixed_number p ≡ amount_of not_an_integer
  from_prefixed_number_fraction e d k written h =
      from_prefixed_number_lem p
      ∙ ap amount_of (
          big_int_fraction p (convert_to atto (convert_to atto p))
            (IsCanonicalForm-again p (convert_to atto p) (canonical_form p v)) e d k v written h)

-- The amount of LGNT that digits `i` and decimals `d` stand for, in atto-LGNT.
abbrev pub read_amount : Bool → Text → Text → Result Lgnt
read_amount b i d =
    if leb (length d) 18
    then ok (record { canonical = signed b (value (i ++ d) * 10 ^ (18 - length d)) })
    else throw "SyntaxError: Cannot convert to a BigInt"

head_of_long : (d : Text) → leb (length d) 18 ≡ false → (c : ℕ) × (e : Text) × (d ≡ c ∷ e)
head_of_long [] h = cc
head_of_long (c ∷ d) h = (c, d, refl)

from_number :
    (b : Bool) (i d : Text) (x : PrefixedNumber)
    → x ≡ of_normalized (number_of b (strip_left i) d) no_prefix
    → IsNormal x.scientific_number.coefficient
    → from_prefixed_number x ≡ read_amount b i d
unfolding of_normalized
from_number b i d x e v = elim (Bool-cases (leb (length d) 18)) [
  | inl fits ↦
      let h : length d ≤ 18 = ground arith in
      let k = 18 - length d in
      rw fits (
        from_prefixed_number_whole x v k (rw e (omega int_laws))
        ∙ ap (λ (z : ℤ). ok (record { canonical = z }))
            (rw e (
              signed-number_of b (strip_left i) d (10 ^ k)
              ∙ ap (λ (m : ℕ). signed b (m * 10 ^ k)) (value-strip_left i d))))
  | inr long ↦
      let h : 18 < length d = ground arith in
      let (c, r, written) = head_of_long d long in
      rw long (
        from_prefixed_number_fraction x v c r (length d - 19)
          (ap (λ (y : PrefixedNumber). y.scientific_number.coefficient.decimal_part) e ∙ written)
          (rw e (omega int_laws)))
]

-- A string of digits and decimals is read exactly; with more than 18 decimals, zeros at the end
-- not counted, it is refused.
pub from-render :
    (b : Bool) (i d : Text)
    → AllDigits i
    → AllDigits d
    → from (render b i d) ≡ read_amount b i (strip_right d)
unfolding from from_prefixed_number of_text of_normalized
from-render b i d h k =
    from_number b i (strip_right d) (of_text (render b i d) no_prefix)
      (ap (λ (n : NormalizedNumber). of_normalized n no_prefix) (normalized_number-render b i d h))
      (subst IsNormal (sym (normalized_number-render b i d h)) (number_of-IsNormal b i d h k))
