-- ===== src/Hash/Hex.antt =====
-- The hexadecimal form of hashes, packages/node-api/src/Hash.ts.
use logion_api.Common.{
  ℕ, ◌*◌, ◌/◌, ◌%◌, ◌<◌, ◌≡◌, ◌↔◌, refl, ap, sym, ◌∙◌, Bool, true, false, List, [], ◌∷◌, length,
  ==_iff, ok, ◌>>◌, guard, arith, ok-inj, String, subst,
}
use logion_api.Numbers.Text.{Text, text_eq}
use logion_api.Hash.{
  Hash, is_valid_bytes, new_hash, hex_digit, hex_digits, to_hex, equal_to, is_hex_digit, all_hex,
  is_valid_hex_hash, digit_value, bytes_of, after_prefix, from_hex,
}

-- The elements of a Uint8Array.
unfoldable pub AllBytes : List ℕ → Type 0
AllBytes [] = Unit
AllBytes (b ∷ bytes) = (b < 256) × AllBytes bytes

digit_value-hex_digit : (n : ℕ) → n < 16 → digit_value (hex_digit n) ≡ n
unfolding digit_value hex_digit
digit_value-hex_digit n h = ground arith

is_hex_digit-hex_digit : (n : ℕ) → n < 16 → is_hex_digit (hex_digit n) ≡ true
unfolding is_hex_digit hex_digit
is_hex_digit-hex_digit n h = ground arith

bytes_of-hex_digits : (bytes : List ℕ) → AllBytes bytes → bytes_of (hex_digits bytes) ≡ bytes
unfolding bytes_of hex_digits AllBytes
bytes_of-hex_digits [] h = refl
bytes_of-hex_digits (b ∷ bytes) (small, h) =
    rw
      (
        digit_value-hex_digit (b / 16) (omega arith),
        digit_value-hex_digit (b % 16) (omega arith),
        bytes_of-hex_digits bytes h,
      )
      (ap (λ (n : ℕ). n ∷ bytes) (omega arith))

all_hex-hex_digits : (bytes : List ℕ) → AllBytes bytes → all_hex (hex_digits bytes) ≡ true
unfolding all_hex hex_digits AllBytes
all_hex-hex_digits [] h = refl
all_hex-hex_digits (b ∷ bytes) (small, h) = rw (
  is_hex_digit-hex_digit (b / 16) (omega arith),
  is_hex_digit-hex_digit (b % 16) (omega arith),
  all_hex-hex_digits bytes h,
)

length-hex_digits : (bytes : List ℕ) → length (hex_digits bytes) ≡ 2 * length bytes
unfolding hex_digits
length-hex_digits [] = refl
length-hex_digits (b ∷ bytes) = omega (arith, length-hex_digits bytes)

text_eq_iff : (s t : Text) → (text_eq s t ≡ true) ↔ (s ≡ t)
unfolding text_eq
text_eq_iff [] [] = (λ h. refl, λ h. refl)
text_eq_iff [] (d ∷ t) = (λ h. cc, λ h. cc)
text_eq_iff (c ∷ s) [] = (λ h. cc, λ h. cc)
text_eq_iff (c ∷ s) (d ∷ t) = ground (arith, ==_iff c d, text_eq_iff s t)

guard_ok :
    {A : Type 0} (test : Bool) (message : String) (a : A) {b : A}
    → (guard test message >> ok a) ≡ ok b
    → (test ≡ true) × (a ≡ b)
guard_ok true message a h = (refl, ok-inj h)
guard_ok false message a h = cc

length_valid : (bytes : List ℕ) → is_valid_bytes bytes ≡ true → length bytes ≡ 32
unfolding is_valid_bytes
length_valid bytes h = (==_iff (length bytes) 32).0 h

hex_valid :
    (bytes : List ℕ)
    → is_valid_bytes bytes ≡ true
    → AllBytes bytes
    → is_valid_hex_hash (to_hex (record { bytes = bytes })) ≡ true
unfolding is_valid_hex_hash to_hex
hex_valid bytes valid small =
    let size = length-hex_digits bytes in
    let size_32 = length_valid bytes valid in rw (all_hex-hex_digits bytes small) (ground arith)

after_prefix-to_hex : (hash : Hash) → after_prefix (to_hex hash) ≡ hex_digits hash.bytes
unfolding after_prefix to_hex
after_prefix-to_hex hash = refl

read_back :
    (bytes : List ℕ)
    → is_valid_bytes bytes ≡ true
    → AllBytes bytes
    → from_hex (to_hex (record { bytes = bytes })) ≡ ok (record { bytes = bytes })
unfolding from_hex new_hash
read_back bytes valid small =
    rw (hex_valid bytes valid small, after_prefix-to_hex, bytes_of-hex_digits bytes small, valid)

-- The hexadecimal form of a hash is valid and read back as the same hash.
pub from_hex-to_hex :
    (bytes : List ℕ) (hash : Hash)
    → new_hash bytes ≡ ok hash
    → AllBytes bytes
    → (is_valid_hex_hash (to_hex hash) ≡ true) × (from_hex (to_hex hash) ≡ ok hash)
unfolding new_hash
from_hex-to_hex bytes hash made small =
    let (valid, same) = guard_ok (is_valid_bytes bytes) _ _ made in
    subst (λ (h : Hash). (is_valid_hex_hash (to_hex h) ≡ true) × (from_hex (to_hex h) ≡ ok h)) same
      (hex_valid bytes valid small, read_back bytes valid small)

-- Hashes of bytes are equal exactly when their bytes are.
pub equal_to_iff :
    (a b : Hash) → AllBytes a.bytes → AllBytes b.bytes → (equal_to a b ≡ true) ↔ (a.bytes ≡ b.bytes)
unfolding equal_to to_hex text_eq
equal_to_iff a b small_a small_b = (
  λ h.
      sym (bytes_of-hex_digits a.bytes small_a)
      ∙ ap bytes_of ((text_eq_iff (hex_digits a.bytes) (hex_digits b.bytes)).0 h)
      ∙ bytes_of-hex_digits b.bytes small_b,
  λ e. (text_eq_iff (hex_digits a.bytes) (hex_digits b.bytes)).1 (ap hex_digits e),
)
