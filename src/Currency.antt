-- ===== src/Currency.antt =====
-- class Lgnt and LgntFormatter of packages/node-api/src/Currency.ts: amounts of LGNT in their
-- canonical form, a number of atto-LGNT. `convertToFiat` and `fromFiat`, which compute with
-- floating point numbers, are left out.
pub mod Conversions
pub mod Arithmetic
use logion_api.Common.{ℕ, Bool, Option, none, some, ◌∷◌, ◌++◌, Result, ok, ◌>>=◌, if◌then◌else◌}
use logion_api.Common.Int.{ℤ, pos, negsuc, ◌+ℤ◌, ◌-ℤ◌, ◌*ℤ◌, ◌/ℤ◌, ltb_ℤ, ◌==ℤ◌}
use logion_api.Numbers.Text.{Text, codes}
use logion_api.Numbers.Normalized.{
  unnormalize, to_integer, to_fixed_precision_decimals, to_fixed_precision,
}
use logion_api.Numbers.BigInt.{print, big_int}
use logion_api.Numbers.Prefixed.{
  UnitPrefix, no_prefix, atto, PrefixedNumber, of_text, coefficient, convert_to,
}

pub record Lgnt : Type 0 where
  pub canonical : ℤ

abbrev pub smallest_unit_prefix : UnitPrefix
smallest_unit_prefix = atto

unfoldable pub from_canonical : ℤ → Lgnt
from_canonical canonical = record { canonical = canonical }

unfoldable pub from_canonical_prefixed_number : PrefixedNumber → Result Lgnt
from_canonical_prefixed_number prefixed =
    let canonical = convert_to smallest_unit_prefix prefixed in
    do z ← big_int (unnormalize (coefficient canonical)); ok (record { canonical = z })

-- `from`, for an amount given by its `toString()`
unfoldable pub from : Text → Result Lgnt
from amount =
    let prefixed = of_text amount no_prefix in
    from_canonical_prefixed_number (convert_to smallest_unit_prefix prefixed)

unfoldable pub from_prefixed_number : PrefixedNumber → Result Lgnt
from_prefixed_number amount =
    from_canonical_prefixed_number (convert_to smallest_unit_prefix amount)

unfoldable pub zero : Result Lgnt
zero = from (print (pos 0))

unfoldable pub to_canonical_prefixed_number : Lgnt → PrefixedNumber
to_canonical_prefixed_number lgnt = of_text (print lgnt.canonical) smallest_unit_prefix

-- a unit that is left out is `Numbers.NONE`
unfoldable pub to_prefixed_number : Option UnitPrefix → Lgnt → PrefixedNumber
to_prefixed_number (some unit) lgnt = convert_to unit (to_canonical_prefixed_number lgnt)
to_prefixed_number none lgnt = convert_to no_prefix (to_canonical_prefixed_number lgnt)

unfoldable pub add : Lgnt → Lgnt → Lgnt
add lgnt amount = record { canonical = lgnt.canonical +ℤ amount.canonical }

unfoldable pub substract : Lgnt → Lgnt → Lgnt
substract lgnt amount = record { canonical = lgnt.canonical -ℤ amount.canonical }

unfoldable pub multiply : ℤ → Lgnt → Lgnt
multiply factor lgnt = record { canonical = lgnt.canonical *ℤ factor }

-- `bigint` division truncates towards zero, and throws on a zero divider
unfoldable pub divide : ℤ → Lgnt → Result Lgnt
divide divider lgnt = do z ← lgnt.canonical /ℤ divider; ok (record { canonical = z })

unfoldable pub negate : Lgnt → Lgnt
negate lgnt = record { canonical = pos 0 -ℤ lgnt.canonical }

unfoldable pub is_negative : Lgnt → Bool
is_negative lgnt = ltb_ℤ lgnt.canonical (pos 0)

unfoldable pub integer_part : Option UnitPrefix → Lgnt → Result ℤ
integer_part unit lgnt = big_int (to_integer (coefficient (to_prefixed_number unit lgnt)))

unfoldable pub decimal_part_string : ℕ → Option UnitPrefix → Lgnt → Text
decimal_part_string decimals unit lgnt =
    to_fixed_precision_decimals decimals (coefficient (to_prefixed_number unit lgnt))

unfoldable pub decimal_part : ℕ → Option UnitPrefix → Lgnt → Result ℤ
decimal_part decimals unit lgnt =
    big_int (to_fixed_precision_decimals decimals (coefficient (to_prefixed_number unit lgnt)))

unfoldable pub equal_to : Lgnt → Lgnt → Bool
equal_to lgnt another = lgnt.canonical ==ℤ another.canonical

unfoldable pub compare_to : Lgnt → Lgnt → ℤ
compare_to lgnt another =
    if ltb_ℤ lgnt.canonical another.canonical
    then negsuc 0
    else if ltb_ℤ another.canonical lgnt.canonical
    then pos 1
    else pos 0

unfoldable pub to_string : Lgnt → Text
to_string lgnt = print lgnt.canonical

pub record LgntFormatter : Type 0 where
  pub decimals : ℕ
  pub unit : UnitPrefix

unfoldable pub format : LgntFormatter → Lgnt → Text
format formatter lgnt =
    let prefixed = to_prefixed_number (some formatter.unit) lgnt in
    to_fixed_precision formatter.decimals (coefficient prefixed)
    ++ b' ' ∷ codes prefixed.prefix.symbol
