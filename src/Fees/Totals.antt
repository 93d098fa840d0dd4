-- ===== src/Fees/Totals.antt =====
-- The total of fees, packages/node-api/src/FeesEstimator.ts.
use logion_api.Common.{◌≡◌, ◌∙◌, refl, Option, none, some, List, [], ◌∷◌, ok, ◌>>=◌}
use logion_api.Common.Int.{ℤ, pos, ◌+ℤ◌, ◌*ℤ◌, *ℤ_parts, *ℤ_distrib, int_laws}
use logion_api.Currency.{Lgnt}
use logion_api.Currency.Arithmetic.{zero_ok}
use logion_api.Currency
use logion_api.Fees.{
  Fees, or_zero, total_fee, multiply_fee, multiply, add_fee, add, add_from, add_all, zero_fees,
  only_inclusion,
}

-- what is to be paid for an optional fee, in atto-LGNT
abbrev pub due : Option Lgnt → ℤ
due none = pos 0
due (some fee) = fee.canonical

unfoldable pub sum_of : Fees → ℤ
sum_of fees =
    fees.inclusion_fee.canonical
    +ℤ due fees.storage_fee
    +ℤ due fees.legal_fee
    +ℤ due fees.certificate_fee
    +ℤ due fees.value_fee
    +ℤ due fees.collection_item_fee
    +ℤ due fees.tokens_record_fee

or_zero-due : (fee : Option Lgnt) → or_zero fee ≡ ok (record { canonical = due fee })
unfolding or_zero
or_zero-due none = zero_ok
or_zero-due (some fee) = refl

pub total_fee-sum : (fees : Fees) → total_fee fees ≡ ok (record { canonical = sum_of fees })
unfolding total_fee Currency.add sum_of
total_fee-sum fees = rw (
  or_zero-due fees.storage_fee,
  or_zero-due fees.legal_fee,
  or_zero-due fees.certificate_fee,
  or_zero-due fees.value_fee,
  or_zero-due fees.collection_item_fee,
  or_zero-due fees.tokens_record_fee,
)

due-add_fee : (a b : Option Lgnt) → due (add_fee a b) ≡ due a +ℤ due b
unfolding add_fee Currency.add
due-add_fee none none = omega int_laws
due-add_fee none (some b) = omega int_laws
due-add_fee (some a) none = omega int_laws
due-add_fee (some a) (some b) = refl

sum_of-add : (a b : Fees) → sum_of (add a b) ≡ sum_of a +ℤ sum_of b
unfolding sum_of add Currency.add
sum_of-add a b =
    rw
      (
        due-add_fee a.storage_fee b.storage_fee,
        due-add_fee a.legal_fee b.legal_fee,
        due-add_fee a.certificate_fee b.certificate_fee,
        due-add_fee a.value_fee b.value_fee,
        due-add_fee a.collection_item_fee b.collection_item_fee,
        due-add_fee a.tokens_record_fee b.tokens_record_fee,
      )
      (omega int_laws)

+ℤ_regroup : (a b c d : ℤ) → a +ℤ b +ℤ (c +ℤ d) ≡ a +ℤ c +ℤ (b +ℤ d)
+ℤ_regroup a b c d = omega int_laws

due-multiply_fee : (fee : Option Lgnt) (times : ℤ) → due (multiply_fee fee times) ≡ due fee *ℤ times
unfolding multiply_fee Currency.multiply
due-multiply_fee none times = omega (int_laws, *ℤ_parts)
due-multiply_fee (some fee) times = refl

pub sum_of-multiply :
    (times : ℤ) (fees : Fees) → sum_of (multiply times fees) ≡ sum_of fees *ℤ times
unfolding sum_of multiply Currency.multiply
sum_of-multiply times fees = simp (
  due-multiply_fee fees.storage_fee times,
  due-multiply_fee fees.legal_fee times,
  due-multiply_fee fees.certificate_fee times,
  due-multiply_fee fees.value_fee times,
  due-multiply_fee fees.collection_item_fee times,
  due-multiply_fee fees.tokens_record_fee times,
  *ℤ_distrib,
)

-- Multiplying fees multiplies their total.
total_fee-multiply :
    (times : ℤ) (fees : Fees)
    → total_fee (multiply times fees)
      ≡ total_fee fees >>= λ total. ok (Currency.multiply times total)
unfolding Currency.multiply
total_fee-multiply times fees =
    rw (total_fee-sum (multiply times fees), total_fee-sum fees, sum_of-multiply times fees)

abbrev pub grand_total : List Fees → ℤ
grand_total [] = pos 0
grand_total (fees ∷ rest) = sum_of fees +ℤ grand_total rest

sum_of-add_from :
    (current : Fees) (fees : List Fees)
    → sum_of (add_from current fees) ≡ sum_of current +ℤ grand_total fees
unfolding add_from
sum_of-add_from current [] = omega int_laws
sum_of-add_from current (next ∷ rest) =
    rw (sum_of-add_from (add current next) rest, sum_of-add current next) (omega int_laws)

abbrev no_fees : Fees
no_fees = only_inclusion (record { canonical = pos 0 })

sum_of-add_from_zero : (fees : List Fees) → sum_of (add_from no_fees fees) ≡ grand_total fees
unfolding sum_of
sum_of-add_from_zero fees = sum_of-add_from no_fees fees ∙ omega int_laws

-- Adding up any number of fees gives fees whose total is the sum of their totals.
pub total_fee-add_all :
    (fees : List Fees)
    → (sum : Fees) × (add_all fees ≡ ok sum)
      × (total_fee sum ≡ ok (record { canonical = grand_total fees }))
unfolding add_all zero_fees
total_fee-add_all fees = rw zero_ok (
  add_from no_fees fees,
  refl,
  rw (total_fee-sum (add_from no_fees fees), sum_of-add_from_zero fees),
)
