-- ===== src/Numbers/Digits.antt =====
-- The decimal digits of a numeral: their value, and what padding and stripping zeros change of it.
use native.Mathlib.Nat.{mul_assoc}
use logion_api.Common.{
  ℕ, zero, suc, ◌+◌, ◌-◌, ◌*◌, ◌^◌, ◌%◌, ◌≤◌, ◌≡◌, refl, ap, ◌∙◌, ◌≢◌, [], ◌∷◌, ◌++◌, length,
  replicate, ◌==◌, arith, length-append, inl, inr, Bool-cases, subst,
}
use logion_api.Common.Power.{pow_add, pow_suc}
use logion_api.Numbers.Text.{Text, zero_digit, strip_left, strip_right, keep_unless_zero}

abbrev pub IsDigit : ℕ → Type 0
IsDigit c = (48 ≤ c) × (c ≤ 57)

abbrev pub AllDigits : Text → Type 0
AllDigits [] = Unit
AllDigits (c ∷ s) = IsDigit c × AllDigits s

-- The number that a string of digits stands for.
abbrev pub value : Text → ℕ
value [] = 0
value (c ∷ s) = (c - 48) * 10 ^ length s + value s

abbrev pub zeros : ℕ → Text
zeros n = replicate n zero_digit

pub value-append : (a b : Text) → value (a ++ b) ≡ value a * 10 ^ length b + value b
value-append [] b = omega arith
value-append (c ∷ a) b = grind (
  arith,
  value-append a b,
  length-append a b,
  pow_add (length a) (length b),
  ap (λ (n : ℕ). 10 ^ n) (length-append a b),
)

pub value-zeros : (n : ℕ) → value (zeros n) ≡ 0
value-zeros zero = refl
value-zeros (suc n) = omega (arith, value-zeros n)

pub AllDigits-append : (a b : Text) → AllDigits a → AllDigits b → AllDigits (a ++ b)
AllDigits-append [] b h k = k
AllDigits-append (c ∷ a) b (p, h) k = (p, AllDigits-append a b h k)

pub AllDigits-left : (a b : Text) → AllDigits (a ++ b) → AllDigits a
AllDigits-left [] b h = tt
AllDigits-left (c ∷ a) b (p, h) = (p, AllDigits-left a b h)

pub AllDigits-right : (a b : Text) → AllDigits (a ++ b) → AllDigits b
AllDigits-right [] b h = h
AllDigits-right (c ∷ a) b (p, h) = AllDigits-right a b h

pub AllDigits-zeros : (n : ℕ) → AllDigits (zeros n)
AllDigits-zeros zero = tt
AllDigits-zeros (suc n) = (omega arith, AllDigits-zeros n)

-- `strip_left` removes zeros from the front, and only zeros.
pub strip_left_split : (s : Text) → (k : ℕ) × (s ≡ zeros k ++ strip_left s)
unfolding strip_left
strip_left_split [] = (0, refl)
strip_left_split (c ∷ s) =
    let (k, e) = strip_left_split s in
    elim (Bool-cases (c == zero_digit)) [
      | inl same ↦ (suc k, rw same (ground (arith, e)))
      | inr other ↦ (0, rw other)
    ]

keep_unless_zero_split :
    (c : ℕ) (s : Text) (k : ℕ) → (n : ℕ) × (c ∷ s ++ zeros k ≡ keep_unless_zero c s ++ zeros n)
unfolding keep_unless_zero
keep_unless_zero_split c [] k = elim (Bool-cases (c == zero_digit)) [
  | inl same ↦ (suc k, rw same (ground arith))
  | inr other ↦ (k, rw other)
]
keep_unless_zero_split c (d ∷ s) k = (k, refl)

-- `strip_right` removes zeros from the end, and only zeros.
pub strip_right_split : (s : Text) → (k : ℕ) × (s ≡ strip_right s ++ zeros k)
unfolding strip_right
strip_right_split [] = (0, refl)
strip_right_split (c ∷ s) =
    let (k, e) = strip_right_split s in
    let (n, e') = keep_unless_zero_split c (strip_right s) k in (n, ap (λ (t : Text). c ∷ t) e ∙ e')

pub AllDigits-strip_left : (s : Text) → AllDigits s → AllDigits (strip_left s)
AllDigits-strip_left s h =
    let (k, e) = strip_left_split s in
    AllDigits-right (zeros k) (strip_left s) (subst AllDigits e h)

pub AllDigits-strip_right : (s : Text) → AllDigits s → AllDigits (strip_right s)
AllDigits-strip_right s h =
    let (k, e) = strip_right_split s in
    AllDigits-left (strip_right s) (zeros k) (subst AllDigits e h)

pub strip_left_idem : (s : Text) → strip_left (strip_left s) ≡ strip_left s
unfolding strip_left
strip_left_idem [] = refl
strip_left_idem (c ∷ s) = elim (Bool-cases (c == zero_digit)) [
  | inl same ↦ rw same (strip_left_idem s)
  | inr other ↦ rw other (rw other)
]

strip_right-keep_unless_zero :
    (c : ℕ) (s : Text)
    → strip_right s ≡ s
    → strip_right (keep_unless_zero c s) ≡ keep_unless_zero c s
unfolding strip_right keep_unless_zero
strip_right-keep_unless_zero c [] h = ground arith
strip_right-keep_unless_zero c (d ∷ s) h = rw h

pub strip_right_idem : (s : Text) → strip_right (strip_right s) ≡ strip_right s
unfolding strip_right
strip_right_idem [] = refl
strip_right_idem (c ∷ s) = strip_right-keep_unless_zero c (strip_right s) (strip_right_idem s)

-- The digits behind the first one of a string with no zero at its end.
strip_right_tail :
    (c d : ℕ) (s : Text) → strip_right (c ∷ d ∷ s) ≡ c ∷ d ∷ s → strip_right (d ∷ s) ≡ d ∷ s
unfolding strip_right
strip_right_tail c d s h = kept (strip_right (d ∷ s)) h
  where
    kept : (t : Text) → keep_unless_zero c t ≡ c ∷ d ∷ s → t ≡ d ∷ s
    kept [] e = ground arith
    kept (x ∷ t) e = cc

-- A string of digits that ends in no zero stands for no multiple of ten.
pub value-mod_ten :
    (c : ℕ) (s : Text) → AllDigits (c ∷ s) → strip_right (c ∷ s) ≡ c ∷ s → value (c ∷ s) % 10 ≢ 0
value-mod_ten c [] (p, _) h = unfold strip_right keep_unless_zero in ground arith
value-mod_ten c (d ∷ s) (p, q) h = grind (
  arith,
  value-mod_ten d s q (strip_right_tail c d s h),
  pow_suc (length s),
  mul_assoc (c - 48) 10 (10 ^ length s),
)
