-- ===== src/Numbers/BigInt.antt =====
-- The conversions between `bigint` and `string` that JavaScript gives packages/node-api/src:
-- `z.toString()` and `BigInt(s)`, the latter for strings made of digits, signs and dots.
use logion_api.Common.{
  ℕ, zero, suc, ◌+◌, ◌-◌, ◌/◌, ◌%◌, ◌<◌, ◌≡◌, refl, ap, ◌∙◌, Bool, true, false, ◌&&◌, [], ◌∷◌, ◌++◌,
  arith, ltb, leb, ◌==◌, if◌then◌else◌, Result, ok, throw, ◌≢◌,
}
use logion_api.Common.Int.{ℤ, pos, negsuc}
use logion_api.Numbers.Text.{Text, minus, dot}
use logion_api.Numbers.Canonical.{render, sign}
use logion_api.Numbers.Digits.{AllDigits, AllDigits-append, value, value-append}
use logion_api.Numbers.Value.{signed}

-- The digits of a number below `fuel`.
digits_of : ℕ → ℕ → Text
digits_of zero n = []
digits_of (suc fuel) n =
    let rest = digits_of fuel (n / 10) in
    if ltb n 10 then (n + 48) ∷ [] else rest ++ (n % 10 + 48) ∷ []

unfoldable pub print_nat : ℕ → Text
unfolding digits_of
print_nat n = digits_of (suc n) n

-- `z.toString()`
unfoldable pub print : ℤ → Text
print (pos n) = print_nat n
print (negsuc n) = minus ∷ print_nat (suc n)

unfoldable pub is_digit : ℕ → Bool
is_digit c = leb 48 c && leb c 57

unfoldable pub all_digits : Text → Bool
unfolding is_digit
all_digits [] = true
all_digits (c ∷ s) = is_digit c && all_digits s

abbrev pub not_an_integer : Result ℤ
not_an_integer = throw "SyntaxError: Cannot convert to a BigInt"

-- `BigInt(s)`
unfoldable pub big_int : Text → Result ℤ
big_int [] = ok (pos 0)
big_int (c ∷ []) = if is_digit c then ok (pos (c - 48)) else not_an_integer
big_int (c ∷ d ∷ s) =
    if c == minus
    then (if all_digits (d ∷ s) then ok (signed true (value (d ∷ s))) else not_an_integer)
    else if all_digits (c ∷ d ∷ s)
    then ok (pos (value (c ∷ d ∷ s)))
    else not_an_integer

digits_of-AllDigits : (fuel n : ℕ) → AllDigits (digits_of fuel n)
unfolding digits_of
digits_of-AllDigits zero n = tt
digits_of-AllDigits (suc fuel) n = ground (
  arith,
  digits_of-AllDigits fuel (n / 10),
  AllDigits-append (digits_of fuel (n / 10)) ((n % 10 + 48) ∷ []),
)

value-digits_of : (fuel n : ℕ) → n < fuel → value (digits_of fuel n) ≡ n
unfolding digits_of
value-digits_of zero n h = absurd (omega arith)
value-digits_of (suc fuel) n h = ground (
  arith,
  value-digits_of fuel (n / 10),
  value-append (digits_of fuel (n / 10)) ((n % 10 + 48) ∷ []),
)

append-ne-nil : (s : Text) (c : ℕ) → s ++ c ∷ [] ≢ []
append-ne-nil [] c = cc
append-ne-nil (d ∷ s) c = cc

print_nat-ne-nil : (n : ℕ) → print_nat n ≢ []
unfolding print_nat
print_nat-ne-nil n = ground (arith, append-ne-nil (digits_of n (n / 10)) (n % 10 + 48))

pub print_nat-AllDigits : (n : ℕ) → AllDigits (print_nat n)
unfolding print_nat
print_nat-AllDigits n = digits_of-AllDigits (suc n) n

pub value-print_nat : (n : ℕ) → value (print_nat n) ≡ n
unfolding print_nat
value-print_nat n = value-digits_of (suc n) n (omega arith)

pub all_digits-true : (s : Text) → AllDigits s → all_digits s ≡ true
unfolding all_digits
all_digits-true [] h = refl
all_digits-true (c ∷ s) (p, h) = ground (arith, all_digits-true s h)

pub big_int-digits : (s : Text) → AllDigits s → big_int s ≡ ok (pos (value s))
unfolding big_int
big_int-digits [] h = refl
big_int-digits (c ∷ []) h = unfold is_digit in ground arith
big_int-digits (c ∷ d ∷ s) (p, h) = ground (arith, all_digits-true (c ∷ d ∷ s) (p, h))

pub big_int-minus :
    (s : Text) → AllDigits s → s ≢ [] → big_int (minus ∷ s) ≡ ok (signed true (value s))
unfolding big_int
big_int-minus [] h e = absurd (e refl)
big_int-minus (c ∷ s) h e = rw (all_digits-true (c ∷ s) h)

all_digits-dot : (i d : Text) → all_digits (i ++ dot ∷ d) ≡ false
unfolding all_digits
all_digits-dot [] d = unfold is_digit in refl
all_digits-dot (c ∷ i) d = rw (all_digits-dot i d) (ground arith)

big_int-unsigned_dot : (i d : Text) → AllDigits i → big_int (i ++ dot ∷ d) ≡ not_an_integer
unfolding big_int
big_int-unsigned_dot [] [] h = unfold is_digit in refl
big_int-unsigned_dot [] (c ∷ d) h = rw (all_digits-dot [] (c ∷ d))
big_int-unsigned_dot (e ∷ []) d (p, h) = rw (all_digits-dot (e ∷ []) d) (ground arith)
big_int-unsigned_dot (e ∷ f ∷ i) d (p, h) = rw (all_digits-dot (e ∷ f ∷ i) d) (ground arith)

-- A numeral with a dot is no integer for `BigInt`, not even `1.`.
pub big_int-render : (b : Bool) (i d : Text) → AllDigits i → big_int (render b i d) ≡ not_an_integer
unfolding big_int
big_int-render true [] d h = rw (all_digits-dot [] d)
big_int-render true (c ∷ i) d h = rw (all_digits-dot (c ∷ i) d)
big_int-render false i d h = big_int-unsigned_dot i d h

signed-suc : (n : ℕ) → signed true (suc n) ≡ negsuc n
signed-suc n = ground arith

-- `BigInt(z.toString())` is `z`.
pub big_int-print : (z : ℤ) → big_int (print z) ≡ ok z
unfolding print
big_int-print (pos n) =
    big_int-digits (print_nat n) (print_nat-AllDigits n)
    ∙ ap (λ (m : ℕ). ok (pos m)) (value-print_nat n)
big_int-print (negsuc n) =
    big_int-minus (print_nat (suc n)) (print_nat-AllDigits (suc n)) (print_nat-ne-nil (suc n))
    ∙ ap (λ (m : ℕ). ok (signed true m)) (value-print_nat (suc n))
    ∙ ap ok (signed-suc n)

-- A printed integer is a sign and digits.
pub print_parts :
    (z : ℤ)
    → (b : Bool) × (s : Text) × (print z ≡ sign b ++ s) × AllDigits s × (signed b (value s) ≡ z)
unfolding print
print_parts (pos n) = (false, print_nat n, refl, print_nat-AllDigits n, ap pos (value-print_nat n))
print_parts (negsuc n) = (
  true,
  print_nat (suc n),
  refl,
  print_nat-AllDigits (suc n),
  ap (signed true) (value-print_nat (suc n)) ∙ signed-suc n,
)

pub print-ne-nil : (z : ℤ) → print z ≢ []
unfolding print
print-ne-nil (pos n) = print_nat-ne-nil n
print-ne-nil (negsuc n) = cc
