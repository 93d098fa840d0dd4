-- ===== src/Numbers/Scientific.antt =====
-- class ScientificNumber of packages/node-api/src/numbers.ts: a coefficient and a power of ten.
-- `divideBy` and `toNumber`, which compute with floating point numbers, are left out.
use logion_api.Common.{
  ℕ, zero, suc, ◌+◌, ◌-◌, Bool, [], ◌∷◌, ◌++◌, length, ◌==◌, ltb, leb, if◌then◌else◌, ◌||◌,
}
use logion_api.Common.Int.{ℤ, pos, negsuc, ◌+ℤ◌, ◌-ℤ◌}
use logion_api.Numbers.Text.{Text, dot, minus, substring, pad_end, pad_start}
use logion_api.Numbers.Normalized.{
  NormalizedNumber, normalized_number, zero_strip_left, zero_strip_right,
}
use logion_api.Numbers.Normalized

pub record ScientificNumber : Type 0 where
  pub coefficient : NormalizedNumber
  pub ten_exponent : ℤ

-- the decimal digits with the separator moved to the right
unfoldable pub right_with_dot : ℕ → Text → Text
right_with_dot positions decimal_part =
    if leb (length decimal_part) positions
    then pad_end positions decimal_part ++ dot ∷ []
    else substring 0 positions decimal_part
      ++ dot ∷ substring positions (length decimal_part) decimal_part

-- the integer digits with the separator moved to the left
unfoldable pub left_with_dot : ℕ → Text → Text
left_with_dot positions integer_part =
    if leb (length integer_part) positions
    then dot ∷ pad_start (length integer_part + (positions - length integer_part)) integer_part
    else let pivot = length integer_part - positions in
      substring 0 pivot integer_part ++ dot ∷ substring pivot (length integer_part) integer_part

-- `if(negative) return "-" + absolute; else return absolute;`
unfoldable pub signed_text : Bool → Text → Text
signed_text negative absolute = if negative then minus ∷ absolute else absolute

unfoldable pub shift_decimal_separator : ℤ → NormalizedNumber → Text
shift_decimal_separator (pos zero) n = n.normalized
shift_decimal_separator (pos (suc k)) n =
    signed_text n.negative (n.integer_part ++ right_with_dot (suc k) n.decimal_part)
shift_decimal_separator (negsuc k) n =
    signed_text n.negative
      (zero_strip_right (left_with_dot (suc k) n.integer_part ++ n.decimal_part))

unfoldable pub convert_to : ℤ → ScientificNumber → ScientificNumber
convert_to new_ten_exponent num =
    let offset = num.ten_exponent -ℤ new_ten_exponent in
    record {
      coefficient = normalized_number (shift_decimal_separator offset num.coefficient);
      ten_exponent = new_ten_exponent;
    }

unfoldable pub limit_integer_digits : Text → ℕ → ScientificNumber → ScientificNumber
limit_integer_digits integer_part max_digits num =
    let delta = pos (length integer_part) -ℤ pos max_digits in
    convert_to (num.ten_exponent +ℤ delta) num

unfoldable pub limit_decimal_digits : Text → Text → ScientificNumber → ScientificNumber
limit_decimal_digits decimal_part relevant_decimal_part num =
    let delta = pos (length relevant_decimal_part) -ℤ pos (length decimal_part) -ℤ pos 1 in
    convert_to (num.ten_exponent +ℤ delta) num

unfoldable pub optimize_scale : ℕ → ScientificNumber → ScientificNumber
optimize_scale max_digits num =
    let integer_part = num.coefficient.integer_part in
    let decimal_part = num.coefficient.decimal_part in
    let relevant_decimal_part = zero_strip_left decimal_part in
    if length integer_part == max_digits
    then num
    else if ltb max_digits (length integer_part) || ltb 0 (length integer_part)
    then limit_integer_digits integer_part max_digits num
    else if ltb (length relevant_decimal_part) (length decimal_part)
    then limit_decimal_digits decimal_part relevant_decimal_part num
    else num

unfoldable pub negate : ScientificNumber → ScientificNumber
negate num = record {
  coefficient = Normalized.negate num.coefficient;
  ten_exponent = num.ten_exponent;
}
