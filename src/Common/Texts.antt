-- ===== src/Common/Texts.antt =====
-- Arrays and dictionaries of strings: `includes`, `join`, a property of an object.
use Prim.Native.Char.{Char}
use Prim.Native.String.append
use Prim.Native.String.{◌++◌}
use text.Mathlib.Text.{◌==◌}
use logion_api.Common.{
  ◌≡◌, refl, ap, subst, ◌⊎◌, inl, inr, ℕ, zero, suc, ◌/◌, ◌%◌, String, Bool, true, false, Option,
  none, some, List, [], ◌∷◌, if◌then◌else◌, ltb, get_or,
}

-- `xs.includes(x)`
abbrev pub includes : List String → String → Bool
includes [] x = false
includes (y ∷ xs) x = if y == x then true else includes xs x

-- `xs.join(separator)`
abbrev pub join : String → List String → String
join separator [] = ""
join separator (x ∷ []) = x
join separator (x ∷ y ∷ xs) = x ++ separator ++ join separator (y ∷ xs)

-- the text is the empty string, which is falsy
abbrev pub is_empty : String → Bool
is_empty String.[] = true
is_empty (String.◌∷◌ c s) = false

abbrev pub keep {ℓ} : {A : Type ℓ} → (A → Bool) → List A → List A
keep test [] = []
keep test (x ∷ xs) = if test x then x ∷ keep test xs else keep test xs

-- `entries[key]`
abbrev pub property {ℓ} : {A : Type ℓ} → List (String × A) → String → Option A
property [] key = none
property ((k, a) ∷ entries) key = if k == key then some a else property entries key

decimals : ℕ → ℕ → String
decimals zero n = ""
decimals (suc fuel) n =
    let rest = decimals fuel (n / 10) in
    let digit =
      get_or ("0" ∷ "1" ∷ "2" ∷ "3" ∷ "4" ∷ "5" ∷ "6" ∷ "7" ∷ "8" ∷ "9" ∷ []) (n % 10) "" in
    if ltb n 10 then digit else rest ++ digit

-- a number in a template
unfoldable pub show : ℕ → String
unfolding decimals
show n = decimals (suc n) n

-- the texts of a template, in order
abbrev pub template : List String → String
template [] = ""
template (x ∷ xs) = x ++ template xs

nil-append : (t : String) → String.[] ++ t ≡ t
nil-append t = λ i. append.nil t i

cons-append : (c : Char) (s t : String) → String.◌∷◌ c s ++ t ≡ String.◌∷◌ c (s ++ t)
cons-append c s t = λ i. append.cons c s t i

append-is_empty : (s t : String) → is_empty (s ++ t) ≡ true → is_empty t ≡ true
append-is_empty String.[] t h = subst (λ u. is_empty u ≡ true) (nil-append t) h
append-is_empty (String.◌∷◌ c s) t h =
    let never = subst (λ u. is_empty u ≡ true) (cons-append c s t) h in cc

comma-append : (t : String) → is_empty ("," ++ t) ≡ false
comma-append t = ap is_empty (cons-append _ "" t)

-- Joining with commas gives the empty text for no texts, and for one that is empty.
pub is_empty-join :
    (texts : List String) → is_empty (join "," texts) ≡ true → (texts ≡ []) ⊎ (texts ≡ "" ∷ [])
is_empty-join [] h = inl refl
is_empty-join (String.[] ∷ []) h = inr refl
is_empty-join (String.◌∷◌ c s ∷ []) h = cc
is_empty-join (s ∷ t ∷ texts) h =
    let comma = append-is_empty s ("," ++ join "," (t ∷ texts)) h in
    let not_comma = comma-append (join "," (t ∷ texts)) in cc
