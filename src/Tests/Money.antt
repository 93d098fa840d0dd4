-- ===== src/Tests/Money.antt =====
-- Numbers and amounts: packages/node-api/src/numbers.ts and Currency.ts.
use logion_api.Common.{◌≡◌, refl, true, some, none, ok, arith, ◌↔◌}
use logion_api.Common.Int.{pos, negsuc, ◌-ℤ◌, ◌+ℤ◌}
use logion_api.Numbers.Text.{
  Text, codes, index_of, starts_with, ends_with, substring, pad_end, pad_start, strip_left,
  strip_right, text_eq,
}
use logion_api.Numbers.Normalized.{
  zero_strip_left, zero_strip_right, with_dot, normalize, split_at, normalized_number, unnormalize,
  to_integer, to_fixed_precision, to_fixed_precision_decimals,
}
use logion_api.Numbers.Canonical.{render}
use logion_api.Numbers.Scientific.{
  ScientificNumber, right_with_dot, left_with_dot, signed_text, shift_decimal_separator,
}
use logion_api.Numbers.Scientific
use logion_api.Numbers.Value.{IsNormal, SameValue, number_of-IsNormal}
use logion_api.Numbers.Shift.{convert_to-SameValue}
use logion_api.Numbers.BigInt.{print_nat, print, is_digit, all_digits, big_int}
use logion_api.Numbers.Prefixed.{
  no_prefix, kilo, milli, nano, of_normalized, of_text, convert_to, coefficient, sorted_units,
  unit_at, find_candidate, prefix_of_candidate, closest_prefix, PrefixedNumber,
}
use logion_api.Currency.{
  Lgnt, from, from_prefixed_number, from_canonical_prefixed_number, to_prefixed_number,
  to_canonical_prefixed_number, format, integer_part, decimal_part_string, compare_to, is_negative,
  substract, equal_to,
}
use logion_api.Currency.Conversions.{from_prefixed_number-to_prefixed_number, from-render}
use logion_api.Currency.Arithmetic.{compare_to_sign}

numbers : Unit {0}
unfolding index_of starts_with ends_with substring pad_end pad_start strip_left strip_right text_eq
    zero_strip_left zero_strip_right with_dot normalize split_at normalized_number unnormalize
    to_integer to_fixed_precision to_fixed_precision_decimals right_with_dot left_with_dot
    signed_text shift_decimal_separator Scientific.convert_to of_normalized of_text convert_to
    coefficient ◌-ℤ◌ ◌+ℤ◌
numbers = tt

amounts : Unit {0}
unfolding numbers print_nat print is_digit all_digits big_int from from_prefixed_number
    from_canonical_prefixed_number to_prefixed_number to_canonical_prefixed_number format
    integer_part decimal_part_string
amounts = tt

normal_forms :
    ((normalized_number (codes "-0012.3400")).normalized ≡ codes "-12.34")
    × ((normalized_number (codes "-0.00")).normalized ≡ codes ".")
    × (unnormalize (normalized_number (codes "000.5")) ≡ codes "0.5")
    × (unnormalize (normalized_number (codes "42")) ≡ codes "42")
unfolding numbers
normal_forms = (refl, refl, refl, refl)

abbrev text_of : PrefixedNumber → Text
text_of p = (coefficient p).normalized

-- The example of the class's tests: 1234.5 in units, thousands and thousandths.
shifts :
    (text_of (convert_to kilo (of_text (codes "1234.5") no_prefix)) ≡ codes "1.2345")
    × (text_of (convert_to milli (of_text (codes "1234.5") kilo)) ≡ codes "1234500000.")
unfolding numbers
shifts = (refl, refl)

prefixes :
    (closest_prefix (pos 4) ≡ some (record { symbol = "M"; ten_exponent = pos 6 }))
    × (closest_prefix (pos 3) ≡ some kilo)
    × (closest_prefix (negsuc 8) ≡ some nano)
unfolding closest_prefix sorted_units find_candidate prefix_of_candidate unit_at
prefixes = (refl, refl, refl)

abbrev two_and_a_half : Lgnt
two_and_a_half = record { canonical = pos 2500000000000000000 }

amount_runs :
    (from (codes "2.5") ≡ ok two_and_a_half)
    × (format (record { decimals = 2; unit = milli }) two_and_a_half ≡ codes "2500.00 m")
    × (integer_part none two_and_a_half ≡ ok (pos 2))
    × (decimal_part_string 3 none two_and_a_half ≡ codes "500")
unfolding amounts
amount_runs = (refl, refl, refl, refl)

from_prefixed_number-to_prefixed_number_example :
    from_prefixed_number (to_prefixed_number (some kilo) two_and_a_half) ≡ ok two_and_a_half
from_prefixed_number-to_prefixed_number_example =
    from_prefixed_number-to_prefixed_number (some kilo) two_and_a_half

from-render_example :
    from (render true (codes "12") (codes "340"))
    ≡ ok (record { canonical = negsuc 12339999999999999999 })
unfolding strip_right
from-render_example = from-render true (codes "12") (codes "340") (omega arith) (omega arith)

abbrev three_halves : ScientificNumber
three_halves = record {
  coefficient = record {
    normalized = codes "-1.5";
    integer_part = codes "1";
    decimal_part = codes "5";
    negative = true;
  };
  ten_exponent = pos 3;
}

three_halves-IsNormal : IsNormal three_halves.coefficient
unfolding strip_left strip_right
three_halves-IsNormal = number_of-IsNormal true (codes "1") (codes "5") (omega arith) (omega arith)

convert_to-SameValue_example :
    SameValue three_halves (Scientific.convert_to (negsuc 5) three_halves)
convert_to-SameValue_example = convert_to-SameValue three_halves (negsuc 5) three_halves-IsNormal

compare_to_sign_example :
    ((compare_to two_and_a_half (record { canonical = pos 3 }) ≡ negsuc 0)
      ↔ (is_negative (substract two_and_a_half (record { canonical = pos 3 })) ≡ true))
    × ((compare_to two_and_a_half (record { canonical = pos 3 }) ≡ pos 0)
        ↔ (equal_to two_and_a_half (record { canonical = pos 3 }) ≡ true))
    × ((equal_to two_and_a_half (record { canonical = pos 3 }) ≡ true)
        ↔ (two_and_a_half ≡ record { canonical = pos 3 }))
    × (compare_to (record { canonical = pos 3 }) two_and_a_half
        ≡ pos 0 -ℤ compare_to two_and_a_half (record { canonical = pos 3 }))
compare_to_sign_example = compare_to_sign two_and_a_half (record { canonical = pos 3 })
