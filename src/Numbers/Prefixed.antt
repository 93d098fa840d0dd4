-- ===== src/Numbers/Prefixed.antt =====
-- class PrefixedNumber, the unit prefixes and `closestPrefix` of packages/node-api/src/numbers.ts.
use logion_api.Common.{
  ℕ, zero, suc, ◌+◌, ◌-◌, ◌/◌, String, Bool, Option, none, some, List, [], ◌∷◌, length, get_or, ltb,
  leb, if◌then◌else◌,
}
use logion_api.Common.Int.{ℤ, pos, negsuc, ltb_ℤ}
use logion_api.Numbers.Text.{Text}
use logion_api.Numbers.Normalized.{NormalizedNumber, normalized_number, unnormalize}
use logion_api.Numbers.Normalized
use logion_api.Numbers.Scientific.{ScientificNumber}
use logion_api.Numbers.Scientific
use mathlib.Core.Option
use logion_api.Common.{not}

pub record UnitPrefix : Type 0 where
  pub symbol : String
  pub ten_exponent : ℤ

-- `NONE` of the source
abbrev pub no_prefix : UnitPrefix
no_prefix = record { symbol = ""; ten_exponent = pos 0 }

abbrev pub exa : UnitPrefix
exa = record { symbol = "E"; ten_exponent = pos 18 }

abbrev pub peta : UnitPrefix
peta = record { symbol = "P"; ten_exponent = pos 15 }

abbrev pub tera : UnitPrefix
tera = record { symbol = "T"; ten_exponent = pos 12 }

abbrev pub giga : UnitPrefix
giga = record { symbol = "G"; ten_exponent = pos 9 }

abbrev pub mega : UnitPrefix
mega = record { symbol = "M"; ten_exponent = pos 6 }

abbrev pub kilo : UnitPrefix
kilo = record { symbol = "k"; ten_exponent = pos 3 }

abbrev pub milli : UnitPrefix
milli = record { symbol = "m"; ten_exponent = negsuc 2 }

abbrev pub micro : UnitPrefix
micro = record { symbol = "µ"; ten_exponent = negsuc 5 }

abbrev pub nano : UnitPrefix
nano = record { symbol = "n"; ten_exponent = negsuc 8 }

abbrev pub pico : UnitPrefix
pico = record { symbol = "p"; ten_exponent = negsuc 11 }

abbrev pub femto : UnitPrefix
femto = record { symbol = "f"; ten_exponent = negsuc 14 }

abbrev pub atto : UnitPrefix
atto = record { symbol = "a"; ten_exponent = negsuc 17 }

abbrev pub units : List UnitPrefix
units =
    exa ∷ peta ∷ tera ∷ giga ∷ mega ∷ kilo ∷ no_prefix ∷ milli ∷ micro ∷ nano ∷ pico ∷ femto ∷ atto
    ∷ []

-- `sort((a, b) => a.tenExponent - b.tenExponent)`, a stable sort
unfoldable pub insert_unit : UnitPrefix → List UnitPrefix → List UnitPrefix
insert_unit u [] = u ∷ []
insert_unit u (v ∷ vs) =
    if ltb_ℤ v.ten_exponent u.ten_exponent then v ∷ insert_unit u vs else u ∷ v ∷ vs

unfoldable pub sort_units : List UnitPrefix → List UnitPrefix
unfolding insert_unit
sort_units [] = []
sort_units (u ∷ us) = insert_unit u (sort_units us)

unfoldable pub sorted_units : List UnitPrefix
unfolding sort_units
sorted_units = sort_units units

unfoldable pub unit_at : List UnitPrefix → ℕ → UnitPrefix
unit_at us i = get_or us i no_prefix

-- the loop of `closestPrefix`, on fuel: the candidate that it leaves behind
unfoldable pub find_candidate : ℕ → List UnitPrefix → ℤ → ℕ → ℕ → Option ℕ
find_candidate zero us e from to = none
find_candidate (suc fuel) us e from to =
    let next = from + (to - from) / 2 in
    let below = find_candidate fuel us e from next in
    let above = find_candidate fuel us e next to in
    if ltb 1 (to - from)
    then (if ltb_ℤ e (unit_at us next).ten_exponent
        then below
        else if ltb_ℤ (unit_at us next).ten_exponent e
        then above
        else some next)
    else some from

-- what `closestPrefix` returns for a candidate
unfoldable pub prefix_of_candidate : List UnitPrefix → ℤ → ℕ → UnitPrefix
prefix_of_candidate us e candidate =
    if leb (length us - 1) candidate
    then unit_at us (length us - 1)
    else if not (ltb_ℤ (unit_at us candidate).ten_exponent e)
    then unit_at us candidate
    else unit_at us (candidate + 1)

-- The interval halves, so a round for each unit is more than enough.
unfoldable pub closest_prefix : ℤ → Option UnitPrefix
closest_prefix e =
    Option.map (prefix_of_candidate sorted_units e)
      (find_candidate (length sorted_units) sorted_units e 0 (length sorted_units))

pub record PrefixedNumber : Type 0 where
  pub scientific_number : ScientificNumber
  pub prefix : UnitPrefix

-- `new PrefixedNumber(num, prefix)`, for a string and for a `NormalizedNumber`
unfoldable pub of_normalized : NormalizedNumber → UnitPrefix → PrefixedNumber
of_normalized num prefix = record {
  scientific_number = record { coefficient = num; ten_exponent = prefix.ten_exponent };
  prefix = prefix;
}

unfoldable pub of_text : Text → UnitPrefix → PrefixedNumber
of_text num prefix = of_normalized (normalized_number num) prefix

unfoldable pub coefficient : PrefixedNumber → NormalizedNumber
coefficient num = num.scientific_number.coefficient

unfoldable pub convert_to : UnitPrefix → PrefixedNumber → PrefixedNumber
convert_to prefix num =
    let new_scaled = Scientific.convert_to prefix.ten_exponent num.scientific_number in
    of_normalized new_scaled.coefficient prefix

unfoldable pub optimize_scale : ℕ → PrefixedNumber → Option PrefixedNumber
optimize_scale max_digits num =
    let optimized = Scientific.optimize_scale max_digits num.scientific_number in
    Option.map (λ prefix. convert_to prefix num) (closest_prefix optimized.ten_exponent)

unfoldable pub negate : PrefixedNumber → PrefixedNumber
negate num = of_normalized (Normalized.negate num.scientific_number.coefficient) num.prefix

unfoldable pub is_negative : PrefixedNumber → Bool
is_negative num = Normalized.is_negative (coefficient num)

unfoldable pub convert_to_prefixed : ScientificNumber → Option PrefixedNumber
convert_to_prefixed num =
    Option.map
      (λ prefix. of_normalized (Scientific.convert_to prefix.ten_exponent num).coefficient prefix)
      (closest_prefix num.ten_exponent)

-- The big integers of bn.js, as `add` uses them.
pub record BigNumber : Type 1 where
  pub Bn : Type 0
  pub of_string : Text → Bn
  pub plus : Bn → Bn → Bn
  pub to_string : Bn → Text

module _ (bn : BigNumber) where
  unfoldable pub add : PrefixedNumber → PrefixedNumber → PrefixedNumber
  add num other =
      let left = convert_to atto num in
      let right = convert_to atto other in
      let sum =
        bn.plus (bn.of_string (unnormalize left.scientific_number.coefficient))
          (bn.of_string (unnormalize right.scientific_number.coefficient)) in
      convert_to num.prefix (of_text (bn.to_string sum) atto)

  unfoldable pub subtract : PrefixedNumber → PrefixedNumber → PrefixedNumber
  subtract num other = add num (negate other)
