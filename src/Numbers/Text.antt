-- ===== src/Numbers/Text.antt =====
-- The string operations that packages/node-api/src/numbers.ts uses, over the code units of a
-- decimal numeral.
use logion_api.Common.{
  ℕ, suc, ◌-◌, Bool, true, false, Option, none, some, List, [], ◌∷◌, ◌++◌, length, take, drop,
  replicate, ◌==◌, if◌then◌else◌,
}
use mathlib.Core.Option
use Prim.Native.Char.{code}
use Prim.Native.String.{String}

-- A string as its code units.
abbrev pub Text : Type 0
Text = List ℕ

-- The code units of a string of the basic plane. `String` has its own `[]` and `∷`.
abbrev pub codes : String → Text
codes String.[] = []
codes (String.◌∷◌ c s) = code c ∷ codes s

abbrev pub dot : ℕ
dot = b'.'

abbrev pub minus : ℕ
minus = b'-'

abbrev pub zero_digit : ℕ
zero_digit = b'0'

-- `s.indexOf(c)`, with `none` for -1
unfoldable pub index_of : ℕ → Text → Option ℕ
index_of c [] = none
index_of c (d ∷ s) = if d == c then some 0 else Option.map suc (index_of c s)

-- `s.startsWith(c)`
unfoldable pub starts_with : ℕ → Text → Bool
starts_with c [] = false
starts_with c (d ∷ s) = d == c

-- `s.endsWith(c)`
unfoldable pub ends_with : ℕ → Text → Bool
ends_with c [] = false
ends_with c (d ∷ []) = d == c
ends_with c (d ∷ e ∷ s) = ends_with c (e ∷ s)

-- `s.substring(from, to)`, for `from <= to`
unfoldable pub substring : ℕ → ℕ → Text → Text
substring from to s = take (to - from) (drop from s)

-- `s.padEnd(n, "0")`
unfoldable pub pad_end : ℕ → Text → Text
pad_end n s = s ++ replicate (n - length s) zero_digit

-- `s.padStart(n, "0")`
unfoldable pub pad_start : ℕ → Text → Text
pad_start n s = replicate (n - length s) zero_digit ++ s

-- `s.replace(/^0*/, '')`
unfoldable pub strip_left : Text → Text
strip_left [] = []
strip_left (c ∷ s) = if c == zero_digit then strip_left s else c ∷ s

-- keeps `c` unless it is a zero at the end of the string
unfoldable pub keep_unless_zero : ℕ → Text → Text
keep_unless_zero c [] = if c == zero_digit then [] else c ∷ []
keep_unless_zero c (d ∷ s) = c ∷ d ∷ s

-- `s.replace(/0*$/, '')`
unfoldable pub strip_right : Text → Text
unfolding keep_unless_zero
strip_right [] = []
strip_right (c ∷ s) = keep_unless_zero c (strip_right s)

-- `s === t`
unfoldable pub text_eq : Text → Text → Bool
text_eq [] [] = true
text_eq [] (d ∷ t) = false
text_eq (c ∷ s) [] = false
text_eq (c ∷ s) (d ∷ t) = if c == d then text_eq s t else false
