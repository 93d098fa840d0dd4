-- ===== src/Numbers/Shift.antt =====
-- `shiftDecimalSeparator` and `convertTo` of packages/node-api/src/numbers.ts: what becomes of the
-- digits in each of its branches.
use mathlib.Core.List.{append_assoc, append-nil}
use mathlib.Core.Path.{subst}
use logion_api.Common.{
  ℕ, zero, suc, ◌+◌, ◌-◌, ◌≤◌, ◌≡◌, refl, sym, ap, ◌∙◌, Bool, true, false, [], ◌∷◌, ◌++◌, length,
  take, drop, leb, arith, length-append, length-replicate, length-take, length-drop,
  take-append-drop, inl, inr, Bool-cases,
}
use logion_api.Common.Int.{ℤ, pos, negsuc, ◌-ℤ◌, int_laws}
use logion_api.Numbers.Text.{
  Text, dot, zero_digit, substring, pad_end, pad_start, strip_left, strip_right,
}
use logion_api.Numbers.Normalized.{NormalizedNumber, normalized_number, zero_strip_right}
use logion_api.Numbers.Digits.{
  AllDigits, AllDigits-append, AllDigits-zeros, AllDigits-left, AllDigits-right, strip_right_idem,
  zeros,
}
use logion_api.Numbers.Canonical.{
  sign, render, number_of, normalized_number-render, strip_right-dot,
}
use logion_api.Numbers.Scientific.{
  ScientificNumber, right_with_dot, left_with_dot, signed_text, shift_decimal_separator, convert_to,
}
use logion_api.Numbers.Value.{IsNormal, SameValue, Shifted, Shifted-IsNormal, Shifted-SameValue}

signed_text_lem : (b : Bool) (s : Text) → signed_text b s ≡ sign b ++ s
unfolding signed_text
signed_text_lem true s = refl
signed_text_lem false s = refl

take-length : (s : Text) → take (length s) s ≡ s
take-length [] = refl
take-length (c ∷ s) = ap (λ (t : Text). c ∷ t) (take-length s)

substring_split :
    (k : ℕ) (s : Text) → k ≤ length s → substring 0 k s ++ substring k (length s) s ≡ s
unfolding substring
substring_split k s h =
    let e : k - 0 ≡ k = omega arith in
    let e' : length s - k ≡ length (drop k s) = omega (arith, length-drop k s) in
    rw (e, e', take-length (drop k s)) (take-append-drop k s)

length-substring : (k : ℕ) (s : Text) → length (substring k (length s) s) ≡ length s - k
unfolding substring
length-substring k s = omega (arith, length-take (length s - k) (drop k s), length-drop k s)

AllDigits-before : (k : ℕ) (s : Text) → k ≤ length s → AllDigits s → AllDigits (substring 0 k s)
AllDigits-before k s h d =
    AllDigits-left (substring 0 k s) (substring k (length s) s)
      (subst AllDigits (sym (substring_split k s h)) d)

AllDigits-after :
    (k : ℕ) (s : Text) → k ≤ length s → AllDigits s → AllDigits (substring k (length s) s)
AllDigits-after k s h d =
    AllDigits-right (substring 0 k s) (substring k (length s) s)
      (subst AllDigits (sym (substring_split k s h)) d)

read_as :
    (b : Bool) {s : Text} (i d : Text)
    → AllDigits i
    → s ≡ i ++ dot ∷ d
    → normalized_number (signed_text b s) ≡ number_of b (strip_left i) (strip_right d)
read_as b {s} i d h e =
    ap normalized_number (signed_text_lem b s ∙ ap (λ (t : Text). sign b ++ t) e)
    ∙ normalized_number-render b i d h

-- A number in normal form is written as its sign and its digits.
pub normalized-render :
    (n : NormalizedNumber)
    → IsNormal n
    → n.normalized ≡ render n.negative n.integer_part n.decimal_part
normalized-render n v =
    ap (λ (m : NormalizedNumber). m.normalized) v.form
    ∙ ap (λ (b : Bool). render b n.integer_part n.decimal_part)
        (sym (ap (λ (m : NormalizedNumber). m.negative) v.form))

module _ (n : NormalizedNumber) (v : IsNormal n) where
  -- The separator moves to the right past all the decimals.
  past_decimals :
      (k : ℕ)
      → length n.decimal_part ≤ k
      → Shifted n
          (pos k)
          (signed_text n.negative (n.integer_part ++ (pad_end k n.decimal_part ++ dot ∷ [])))
  unfolding pad_end
  past_decimals k h =
      let pad = zeros (k - length n.decimal_part) in
      let whole = n.integer_part ++ (n.decimal_part ++ pad) in
      let all : AllDigits whole =
        AllDigits-append n.integer_part (n.decimal_part ++ pad) v.integer_digits (
          AllDigits-append n.decimal_part pad v.decimal_digits
            (AllDigits-zeros (k - length n.decimal_part))) in
      record {
        int = whole;
        dec = [];
        front = 0;
        back = k - length n.decimal_part;
        read =
            read_as n.negative whole [] all
              (sym (append_assoc n.integer_part (n.decimal_part ++ pad) (dot ∷ [])));
        int_digits = all;
        dec_digits = tt;
        digits = append-nil whole ∙ sym (append_assoc n.integer_part n.decimal_part pad);
        moved = omega int_laws;
      }

  -- The separator moves to the right, among the decimals.
  among_decimals :
      (k : ℕ)
      → k ≤ length n.decimal_part
      → Shifted n (pos k) (
          signed_text n.negative (
            n.integer_part
            ++ (substring 0 k n.decimal_part
                ++ dot ∷ substring k (length n.decimal_part) n.decimal_part)))
  among_decimals k h =
      let d = n.decimal_part in
      let whole = n.integer_part ++ substring 0 k d in
      let rest = substring k (length d) d in
      let all : AllDigits whole =
        AllDigits-append n.integer_part (substring 0 k d) v.integer_digits
          (AllDigits-before k d h v.decimal_digits) in
      record {
        int = whole;
        dec = rest;
        front = 0;
        back = 0;
        read =
            read_as n.negative whole rest all
              (sym (append_assoc n.integer_part (substring 0 k d) (dot ∷ rest)));
        int_digits = all;
        dec_digits = AllDigits-after k d h v.decimal_digits;
        digits =
            append_assoc n.integer_part (substring 0 k d) rest
            ∙ ap (λ (t : Text). n.integer_part ++ t) (substring_split k d h)
            ∙ sym (append-nil (n.integer_part ++ d));
        moved = omega (int_laws, length-substring k d);
      }

  read_stripped :
      (i d : Text)
      → AllDigits i
      → normalized_number (signed_text n.negative (i ++ dot ∷ strip_right d))
        ≡ number_of n.negative (strip_left i) (strip_right d)
  read_stripped i d h =
      read_as n.negative i (strip_right d) h refl
      ∙ ap (λ (t : Text). number_of n.negative (strip_left i) t) (strip_right_idem d)

  -- The separator moves to the left past all the integer digits.
  past_integer :
      (k : ℕ)
      → length n.integer_part ≤ suc k
      → Shifted n (negsuc k) (
          signed_text n.negative (
            zero_strip_right (
              dot
                ∷ pad_start (length n.integer_part + (suc k - length n.integer_part)) n.integer_part
              ++ n.decimal_part)))
  unfolding pad_start zero_strip_right
  past_integer k h =
      let i = n.integer_part in
      let wanted = length i + (suc k - length i) - length i in
      let pad = zeros wanted in
      let size : length pad ≡ suc k - length i = length-replicate wanted zero_digit ∙ omega arith in
      let dec = (pad ++ i) ++ n.decimal_part in
      record {
        int = [];
        dec = dec;
        front = wanted;
        back = 0;
        read =
            ap (λ (t : Text). normalized_number (signed_text n.negative t)) (strip_right-dot [] dec)
            ∙ read_stripped [] dec tt;
        int_digits = tt;
        dec_digits =
            AllDigits-append (pad ++ i) n.decimal_part
              (AllDigits-append pad i (AllDigits-zeros wanted) v.integer_digits) v.decimal_digits;
        digits =
            append_assoc pad i n.decimal_part
            ∙ ap (λ (t : Text). pad ++ t) (sym (append-nil (i ++ n.decimal_part)));
        moved =
            omega (int_laws, size, length-append pad i, length-append (pad ++ i) n.decimal_part);
      }

  -- The separator moves to the left, among the integer digits.
  among_integer :
      (k : ℕ)
      → suc k ≤ length n.integer_part
      → Shifted n (negsuc k) (
          signed_text n.negative (
            zero_strip_right (
              (substring 0 (length n.integer_part - suc k) n.integer_part
                ++ dot
                  ∷ substring
                      (length n.integer_part - suc k)
                      (length n.integer_part)
                      n.integer_part)
              ++ n.decimal_part)))
  unfolding zero_strip_right
  among_integer k h =
      let i = n.integer_part in
      let pivot = length i - suc k in
      let fits : pivot ≤ length i = omega arith in
      let before = substring 0 pivot i in
      let after = substring pivot (length i) i in
      let all : AllDigits before = AllDigits-before pivot i fits v.integer_digits in
      record {
        int = before;
        dec = after ++ n.decimal_part;
        front = 0;
        back = 0;
        read =
            ap (λ (t : Text). normalized_number (signed_text n.negative (strip_right t)))
              (append_assoc before (dot ∷ after) n.decimal_part)
            ∙ ap (λ (t : Text). normalized_number (signed_text n.negative t))
                (strip_right-dot before (after ++ n.decimal_part))
            ∙ read_stripped before (after ++ n.decimal_part) all;
        int_digits = all;
        dec_digits =
            AllDigits-append after n.decimal_part (AllDigits-after pivot i fits v.integer_digits)
              v.decimal_digits;
        digits =
            sym (append_assoc before after n.decimal_part)
            ∙ ap (λ (t : Text). t ++ n.decimal_part) (substring_split pivot i fits)
            ∙ sym (append-nil (i ++ n.decimal_part));
        moved = omega (int_laws, length-substring pivot i, length-append after n.decimal_part);
      }

  unmoved : Shifted n (pos 0) n.normalized
  unmoved = record {
    int = n.integer_part;
    dec = n.decimal_part;
    front = 0;
    back = 0;
    read =
        ap normalized_number (normalized-render n v)
        ∙ normalized_number-render n.negative n.integer_part n.decimal_part v.integer_digits;
    int_digits = v.integer_digits;
    dec_digits = v.decimal_digits;
    digits = sym (append-nil (n.integer_part ++ n.decimal_part));
    moved = omega int_laws;
  }

  -- Wherever the separator goes, the digits stay, between zeros.
  shift_decimal_separator-Shifted :
      (offset : ℤ) → Shifted n offset (shift_decimal_separator offset n)
  unfolding shift_decimal_separator right_with_dot left_with_dot
  shift_decimal_separator-Shifted (pos zero) = unmoved
  shift_decimal_separator-Shifted (pos (suc k)) =
      elim (Bool-cases (leb (length n.decimal_part) (suc k))) [
        | inl short ↦ rw short (past_decimals (suc k) (ground arith))
        | inr long ↦ rw long (among_decimals (suc k) (ground arith))
      ]
  shift_decimal_separator-Shifted (negsuc k) =
      elim (Bool-cases (leb (length n.integer_part) (suc k))) [
        | inl short ↦ rw short (past_integer k (ground arith))
        | inr long ↦ rw long (among_integer k (ground arith))
      ]

-- `convertTo` keeps a number in normal form.
pub convert_to-IsNormal :
    (x : ScientificNumber) (e : ℤ) → IsNormal x.coefficient → IsNormal (convert_to e x).coefficient
unfolding convert_to
convert_to-IsNormal x e v =
    Shifted-IsNormal x e (shift_decimal_separator-Shifted x.coefficient v (x.ten_exponent -ℤ e))

-- Converting a number in normal form to another power of ten keeps its value, sign included.
pub convert_to-SameValue :
    (x : ScientificNumber) (e : ℤ) → IsNormal x.coefficient → SameValue x (convert_to e x)
unfolding convert_to
convert_to-SameValue x e v =
    Shifted-SameValue x e (shift_decimal_separator-Shifted x.coefficient v (x.ten_exponent -ℤ e))
