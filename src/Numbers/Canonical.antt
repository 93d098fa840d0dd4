-- ===== src/Numbers/Canonical.antt =====
-- What `new NormalizedNumber(num)` makes of a well-formed decimal numeral.
use mathlib.Core.List.{append_assoc}
use logion_api.Common.{
  ℕ, suc, ◌+◌, ◌-◌, ◌≡◌, refl, ap, Bool, true, false, [], ◌∷◌, ◌++◌, length, take, drop,
  if◌then◌else◌, arith, length-append, none, some, ◌&&◌, not,
}
use logion_api.Numbers.Text.{
  Text, dot, minus, index_of, starts_with, substring, strip_left, strip_right, text_eq,
  keep_unless_zero,
}
use logion_api.Numbers.Normalized.{
  NormalizedNumber, normalize, normalized_number, zero_strip_left, zero_strip_right, with_dot,
  split_at,
}
use logion_api.Numbers.Digits.{AllDigits, AllDigits-strip_left}

abbrev pub sign : Bool → Text
sign true = minus ∷ []
sign false = []

-- A numeral with a dot.
abbrev pub render : Bool → Text → Text → Text
render negative i d = sign negative ++ (i ++ dot ∷ d)

abbrev pub both_empty : Text → Text → Bool
both_empty [] [] = true
both_empty [] (c ∷ d) = false
both_empty (c ∷ i) d = false

-- The number with these digits, no sign being kept for zero.
abbrev pub number_of : Bool → Text → Text → NormalizedNumber
number_of negative i d =
    let signed = negative && not (both_empty i d) in
    record { normalized = render signed i d; integer_part = i; decimal_part = d; negative = signed }

take_all : (s r : Text) → take (length s) (s ++ r) ≡ s
take_all [] r = refl
take_all (c ∷ s) r = ap (λ (t : Text). c ∷ t) (take_all s r)

drop_all : (s r : Text) → drop (length s) (s ++ r) ≡ r
drop_all [] r = refl
drop_all (c ∷ s) r = drop_all s r

starts_with-minus : (i d : Text) → AllDigits i → starts_with minus (i ++ dot ∷ d) ≡ false
unfolding starts_with
starts_with-minus [] d h = refl
starts_with-minus (c ∷ i) d h = ground arith

strip_left-dot : (i d : Text) → strip_left (i ++ dot ∷ d) ≡ strip_left i ++ dot ∷ d
unfolding strip_left
strip_left-dot [] d = refl
strip_left-dot (c ∷ i) d = ground (arith, strip_left-dot i d)

keep_before_dot : (c : ℕ) (i d : Text) → keep_unless_zero c (i ++ dot ∷ d) ≡ c ∷ i ++ dot ∷ d
unfolding keep_unless_zero
keep_before_dot c [] d = refl
keep_before_dot c (e ∷ i) d = refl

pub strip_right-dot : (i d : Text) → strip_right (i ++ dot ∷ d) ≡ i ++ dot ∷ strip_right d
unfolding strip_right
strip_right-dot [] d = keep_dot (strip_right d)
  where
    keep_dot : (t : Text) → keep_unless_zero dot t ≡ dot ∷ t
    keep_dot [] = unfold keep_unless_zero in refl
    keep_dot (c ∷ t) = unfold keep_unless_zero in refl
strip_right-dot (c ∷ i) d = rw (strip_right-dot i d) (keep_before_dot c i (strip_right d))

index_of-dot : (i d : Text) → AllDigits i → index_of dot (i ++ dot ∷ d) ≡ some (length i)
unfolding index_of
index_of-dot [] d h = refl
index_of-dot (c ∷ i) d (p, h) = rw (index_of-dot i d h) (ground arith)

text_eq-minus-dot :
    (i d : Text) → AllDigits i → text_eq (minus ∷ i ++ dot ∷ d) (minus ∷ dot ∷ []) ≡ both_empty i d
unfolding text_eq
text_eq-minus-dot [] [] h = refl
text_eq-minus-dot [] (c ∷ d) h = refl
text_eq-minus-dot (c ∷ i) d h = ground arith

text_eq-digits : (i d : Text) → AllDigits i → text_eq (i ++ dot ∷ d) (minus ∷ dot ∷ []) ≡ false
unfolding text_eq
text_eq-digits [] d h = refl
text_eq-digits (c ∷ i) d h = ground arith

take-length : (s : Text) → take (length s) s ≡ s
take-length [] = refl
take-length (c ∷ s) = ap (λ (t : Text). c ∷ t) (take-length s)

substring_tail : (c : ℕ) (s : Text) → substring 1 (length (c ∷ s)) (c ∷ s) ≡ s
unfolding substring
substring_tail c s = let e : suc (length s) - 1 ≡ length s = omega arith in rw e (take-length s)

zero_strip_left-render :
    (b : Bool) (i d : Text)
    → AllDigits i
    → zero_strip_left (render b i d) ≡ render b (strip_left i) d
unfolding zero_strip_left starts_with
zero_strip_left-render true i d h =
    rw (substring_tail minus (i ++ dot ∷ d)) (ap (λ (t : Text). minus ∷ t) (strip_left-dot i d))
zero_strip_left-render false i d h = rw (starts_with-minus i d h) (strip_left-dot i d)

index_of-render :
    (b : Bool) (i d : Text)
    → AllDigits i
    → index_of dot (render b i d) ≡ some (length (sign b) + length i)
unfolding index_of
index_of-render true i d h = rw (index_of-dot i d h) (ap some (omega arith))
index_of-render false i d h = rw (index_of-dot i d h) (ap some (omega arith))

pub strip_right-render :
    (b : Bool) (i d : Text) → strip_right (render b i d) ≡ render b i (strip_right d)
unfolding strip_right
strip_right-render true i d = rw (strip_right-dot i d) (keep_before_dot minus i (strip_right d))
strip_right-render false i d = strip_right-dot i d

with_dot-render :
    (b : Bool) (i d : Text) → AllDigits i → with_dot (render b i d) ≡ render b i (strip_right d)
unfolding with_dot zero_strip_right
with_dot-render b i d h = rw (index_of-render b i d h, with_dot) (strip_right-render b i d)

-- `-.` is zero, which has no sign.
unsign_zero :
    (b : Bool) (i d : Text)
    → AllDigits i
    → (if text_eq (render b i d) (minus ∷ dot ∷ []) then dot ∷ [] else render b i d)
      ≡ (number_of b i d).normalized
unsign_zero false i d h = rw (text_eq-digits i d h)
unsign_zero true [] [] h = rw (text_eq-minus-dot [] [] h)
unsign_zero true [] (c ∷ d) h = rw (text_eq-minus-dot [] (c ∷ d) h)
unsign_zero true (e ∷ i) d h = rw (text_eq-minus-dot (e ∷ i) d h)

normalize-render :
    (b : Bool) (i d : Text)
    → AllDigits i
    → normalize (render b i d) ≡ (number_of b (strip_left i) (strip_right d)).normalized
unfolding normalize
normalize-render b i d h =
    let i' = strip_left i in
    let h' = AllDigits-strip_left i h in
    rw (zero_strip_left-render b i d h, with_dot-render b i' d h')
      (unsign_zero b i' (strip_right d) h')

pub substring_before : (s r : Text) → substring 0 (length s) (s ++ r) ≡ s
unfolding substring
substring_before s r = let e : length s - 0 ≡ length s = omega arith in rw e (take_all s r)

substring_between : (c : ℕ) (i r : Text) → substring 1 (1 + length i) (c ∷ i ++ r) ≡ i
unfolding substring
substring_between c i r = let e : 1 + length i - 1 ≡ length i = omega arith in rw e (take_all i r)

drop_past : (s d : Text) → drop (suc (length s)) (s ++ dot ∷ d) ≡ d
drop_past [] d = refl
drop_past (c ∷ s) d = drop_past s d

substring_after :
    (s d : Text) (n : ℕ)
    → n ≡ suc (length s)
    → substring n (length (s ++ dot ∷ d)) (s ++ dot ∷ d) ≡ d
unfolding substring
substring_after s d n e =
    let size : length (s ++ dot ∷ d) - suc (length s) ≡ length d =
      omega (arith, length-append s (dot ∷ d)) in
    rw (e, size, drop_past s d) (take-length d)

split_at-render :
    (b : Bool) (i d : Text)
    → AllDigits i
    → split_at (render b i d) (index_of dot (render b i d))
      ≡ record { normalized = render b i d; integer_part = i; decimal_part = d; negative = b }
unfolding split_at starts_with
split_at-render true i d h = rw (
  index_of-render true i d h,
  substring_between minus i (dot ∷ d),
  substring_after (minus ∷ i) d (1 + length i + 1) (omega arith),
)
split_at-render false i d h =
    let e : 0 + length i ≡ length i = omega arith in
    rw (
      index_of-render false i d h,
      starts_with-minus i d h,
      e,
      substring_before i (dot ∷ d),
      substring_after i d (length i + 1) (omega arith),
    )

-- A numeral with a dot is read as its digits, less the zeros at both ends.
pub normalized_number-render :
    (b : Bool) (i d : Text)
    → AllDigits i
    → normalized_number (render b i d) ≡ number_of b (strip_left i) (strip_right d)
unfolding normalized_number
normalized_number-render b i d h =
    let i' = strip_left i in
    let d' = strip_right d in
    rw (normalize-render b i d h)
      (split_at-render (b && not (both_empty i' d')) i' d' (AllDigits-strip_left i h))

starts_with-digits : (i : Text) → AllDigits i → starts_with minus i ≡ false
unfolding starts_with
starts_with-digits [] h = refl
starts_with-digits (c ∷ i) h = ground arith

index_of-digits : (i : Text) → AllDigits i → index_of dot i ≡ none
unfolding index_of
index_of-digits [] h = refl
index_of-digits (c ∷ i) (p, h) = rw (index_of-digits i h) (ground arith)

index_of-signed : (b : Bool) (i : Text) → AllDigits i → index_of dot (sign b ++ i) ≡ none
unfolding index_of
index_of-signed true i h = rw (index_of-digits i h)
index_of-signed false i h = index_of-digits i h

zero_strip_left-signed :
    (b : Bool) (i : Text) → AllDigits i → zero_strip_left (sign b ++ i) ≡ sign b ++ strip_left i
unfolding zero_strip_left starts_with
zero_strip_left-signed true i h = rw (substring_tail minus i)
zero_strip_left-signed false i h = rw (starts_with-digits i h)

normalize-signed :
    (b : Bool) (i : Text)
    → AllDigits i
    → normalize (sign b ++ i) ≡ (number_of b (strip_left i) []).normalized
unfolding normalize
normalize-signed b i h =
    let i' = strip_left i in
    let h' = AllDigits-strip_left i h in
    rw (zero_strip_left-signed b i h, added) (unsign_zero b i' [] h')
  where
    added : with_dot (sign b ++ strip_left i) ≡ render b (strip_left i) []
    added =
        unfold with_dot in
        rw (index_of-signed b (strip_left i) (AllDigits-strip_left i h), with_dot)
          (append_assoc (sign b) (strip_left i) (dot ∷ []))

-- A numeral without a dot is an integer.
pub normalized_number-signed :
    (b : Bool) (i : Text)
    → AllDigits i
    → normalized_number (sign b ++ i) ≡ number_of b (strip_left i) []
unfolding normalized_number
normalized_number-signed b i h =
    let i' = strip_left i in
    rw (normalize-signed b i h)
      (split_at-render (b && not (both_empty i' [])) i' [] (AllDigits-strip_left i h))
