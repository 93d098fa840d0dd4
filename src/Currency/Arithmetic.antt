-- ===== src/Currency/Arithmetic.antt =====
-- The arithmetic and the order of amounts, packages/node-api/src/Currency.ts.
use logion_api.Common.{◌≡◌, ◌*◌, ◌^◌, refl, ok, ◌↔◌, ap, true, arith}
use logion_api.Common.Int.{ℤ, pos, negsuc, ◌-ℤ◌, int_laws, eq_of_parts}
use logion_api.Numbers.Text.{
  index_of, starts_with, ends_with, substring, pad_end, pad_start, strip_left, strip_right, text_eq,
}
use logion_api.Numbers.Normalized.{
  zero_strip_left, zero_strip_right, with_dot, normalize, split_at, normalized_number, unnormalize,
}
use logion_api.Numbers.Scientific.{
  right_with_dot, left_with_dot, signed_text, shift_decimal_separator,
}
use logion_api.Numbers.Scientific
use logion_api.Numbers.BigInt.{print_nat, print, is_digit, all_digits, big_int}
use logion_api.Numbers.Prefixed.{of_normalized, of_text, convert_to, coefficient}
use logion_api.Currency.{
  Lgnt, zero, from, from_canonical_prefixed_number, add, substract, negate, is_negative, equal_to,
  compare_to,
}

pub Lgnt-eq : {a b : Lgnt} → a.canonical ≡ b.canonical → a ≡ b
Lgnt-eq e = ap (λ (z : ℤ). record { canonical = z }) e

-- Adding and then substracting the same amount gives the first amount back, and substracting is
-- adding the negated amount.
pub add-substract : (a b : Lgnt) → (substract (add a b) b ≡ a) × (substract a b ≡ add a (negate b))
unfolding add substract negate
add-substract a b = (Lgnt-eq (omega int_laws), Lgnt-eq (omega int_laws))

compare_to-lt : (a b : Lgnt) → (compare_to a b ≡ negsuc 0) ↔ (is_negative (substract a b) ≡ true)
unfolding compare_to is_negative substract ◌-ℤ◌
compare_to-lt a b = (λ h. ground arith, λ h. ground arith)

compare_to-eq : (a b : Lgnt) → (compare_to a b ≡ pos 0) ↔ (equal_to a b ≡ true)
unfolding compare_to equal_to
compare_to-eq a b = (λ h. ground arith, λ h. ground arith)

equal_to-eq : (a b : Lgnt) → (equal_to a b ≡ true) ↔ (a ≡ b)
unfolding equal_to
equal_to-eq a b = (λ h. Lgnt-eq (eq_of_parts _ _ (ground arith)), λ e. rw e (ground arith))

compare_to-swap : (a b : Lgnt) → compare_to b a ≡ pos 0 -ℤ compare_to a b
unfolding compare_to ◌-ℤ◌
compare_to-swap a b = ground arith

-- `compareTo` is -1, 0 or 1 as the difference is negative, zero or positive; it is 0 exactly for
-- equal amounts, and comparing the other way round negates it.
pub compare_to_sign :
    (a b : Lgnt)
    → ((compare_to a b ≡ negsuc 0) ↔ (is_negative (substract a b) ≡ true))
      × ((compare_to a b ≡ pos 0) ↔ (equal_to a b ≡ true))
      × ((equal_to a b ≡ true) ↔ (a ≡ b))
      × (compare_to b a ≡ pos 0 -ℤ compare_to a b)
compare_to_sign a b = (compare_to-lt a b, compare_to-eq a b, equal_to-eq a b, compare_to-swap a b)

reading : Unit {0}
unfolding index_of starts_with ends_with substring pad_end pad_start strip_left strip_right text_eq
    zero_strip_left zero_strip_right with_dot normalize split_at normalized_number unnormalize
    right_with_dot left_with_dot signed_text shift_decimal_separator Scientific.convert_to
    of_normalized of_text convert_to coefficient ◌-ℤ◌ print_nat print is_digit all_digits big_int
    from from_canonical_prefixed_number zero
reading = tt

pub zero_ok : zero ≡ ok (record { canonical = pos 0 })
unfolding reading
zero_ok = refl

pub from-print_160 : from (print (pos 160)) ≡ ok (record { canonical = pos (160 * 10 ^ 18) })
unfolding reading
from-print_160 = refl

pub from-print_2000 : from (print (pos 2000)) ≡ ok (record { canonical = pos (2000 * 10 ^ 18) })
unfolding reading
from-print_2000 = refl
