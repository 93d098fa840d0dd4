-- ===== src/Numbers/Normalized.antt =====
-- class NormalizedNumber of packages/node-api/src/numbers.ts: a decimal numeral in normal form,
-- with its sign, its integer digits and its decimal digits.
use logion_api.Common.{
  ℕ, ◌+◌, ◌-◌, Bool, true, false, Option, none, some, [], ◌∷◌, ◌++◌, length, ◌==◌, if◌then◌else◌,
}
use logion_api.Numbers.Text.{
  Text, dot, minus, zero_digit, index_of, starts_with, ends_with, substring, pad_end, strip_left,
  strip_right, text_eq,
}

pub record NormalizedNumber : Type 0 where
  pub normalized : Text
  pub integer_part : Text
  pub decimal_part : Text
  pub negative : Bool

-- `num.replace(/^-0*/, '-')` or `num.replace(/^0*/, '')`
unfoldable pub zero_strip_left : Text → Text
zero_strip_left num =
    if starts_with minus num
    then minus ∷ strip_left (substring 1 (length num) num)
    else strip_left num

unfoldable pub zero_strip_right : Text → Text
zero_strip_right num = strip_right num

-- the appended dot, or the zeros stripped behind the one that is there
unfoldable pub with_dot : Text → Text
with_dot sanitized = elim (index_of dot sanitized) [
  | none ↦ sanitized ++ dot ∷ []
  | some i ↦ zero_strip_right sanitized
]

unfoldable pub normalize : Text → Text
normalize num =
    let sanitized = with_dot (zero_strip_left num) in
    if text_eq sanitized (minus ∷ dot ∷ []) then dot ∷ [] else sanitized

-- `_split`, at the position of the dot
unfoldable pub split_at : Text → Option ℕ → NormalizedNumber
split_at s none =
    if starts_with minus s
    then record {
      normalized = s;
      integer_part = substring 0 1 s;
      decimal_part = s;
      negative = true;
    }
    else record { normalized = s; integer_part = []; decimal_part = s; negative = false }
split_at s (some position) =
    if starts_with minus s
    then record {
      normalized = s;
      integer_part = substring 1 position s;
      decimal_part = substring (position + 1) (length s) s;
      negative = true;
    }
    else record {
      normalized = s;
      integer_part = substring 0 position s;
      decimal_part = substring (position + 1) (length s) s;
      negative = false;
    }

-- `new NormalizedNumber(num)`
unfoldable pub normalized_number : Text → NormalizedNumber
normalized_number num = let s = normalize num in split_at s (index_of dot s)

unfoldable pub unnormalize : NormalizedNumber → Text
unnormalize n =
    if text_eq n.normalized (dot ∷ [])
    then zero_digit ∷ []
    else if starts_with dot n.normalized
    then zero_digit ∷ n.normalized
    else if ends_with dot n.normalized
    then substring 0 (length n.normalized - 1) n.normalized
    else n.normalized

unfoldable pub to_integer : NormalizedNumber → Text
to_integer n =
    let integer = if length n.integer_part == 0 then zero_digit ∷ [] else n.integer_part in
    if n.negative then minus ∷ integer else integer

unfoldable pub to_fixed_precision_decimals : ℕ → NormalizedNumber → Text
to_fixed_precision_decimals decimals n = substring 0 decimals (pad_end decimals n.decimal_part)

unfoldable pub to_fixed_precision : ℕ → NormalizedNumber → Text
to_fixed_precision decimals n = to_integer n ++ dot ∷ to_fixed_precision_decimals decimals n

unfoldable pub is_zero : NormalizedNumber → Bool
is_zero n = text_eq n.normalized (dot ∷ [])

unfoldable pub negate : NormalizedNumber → NormalizedNumber
negate n =
    if is_zero n
    then n
    else if starts_with minus n.normalized
    then normalized_number (substring 1 (length n.normalized) n.normalized)
    else normalized_number (minus ∷ n.normalized)

unfoldable pub is_negative : NormalizedNumber → Bool
is_negative n = n.negative
