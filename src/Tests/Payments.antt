-- ===== src/Tests/Payments.antt =====
-- Fees: packages/node-api/src/FeesEstimator.ts and packages/client/src/Fees.ts.
use logion_api.Common.{ℕ, ◌*◌, ◌≡◌, ◌↔◌, refl, some, none, [], ◌∷◌, ok, ◌>>=◌}
use logion_api.Common.Int.{pos, ◌≤ℤ◌, ◌+ℤ◌}
use logion_api.Numbers.Text.{codes}
use logion_api.Currency.{Lgnt}
use logion_api.Fees.{Fees, only_inclusion, total_fee, add_all, to_fees_class}
use logion_api.Fees.Estimator.{Api, identity, Creation, ensure_enough_funds, estimate_create_loc}
use logion_api.Fees.Totals.{total_fee-add_all, grand_total, sum_of}
use logion_api.Fees.Funds.{ensure_enough_funds_iff, estimate_create_loc-total, legal_due}
use logion_api.Fees.Views.{view_of, to_fees_class-view_of}

abbrev lgnt : ℕ → Lgnt
lgnt n = record { canonical = pos n }

abbrev stored : Fees
stored = record (only_inclusion (lgnt 5)) { storage_fee = some (lgnt 7) }

abbrev certified : Fees
certified = record (only_inclusion (lgnt 2)) { certificate_fee = some (lgnt 4) }

-- An inclusion costs 3, a file its size and a certificate 10.
abbrev node : Api ℕ ℕ
node = record {
  payment_info = λ submittable origin. ok 3;
  query_file_storage_fee = λ entries size. ok (entries * size);
  query_certificate_fee = λ issuance. ok 10;
  free_balance = λ origin. ok origin;
  existential_deposit = 2;
}

abbrev identity_loc : Creation
identity_loc = record {
  loc_type = identity;
  value_fee = none;
  legal_fee = none;
  storage_size = some 100;
}

total_fee-add_all_example :
    (sum : Fees) × (add_all (stored ∷ certified ∷ []) ≡ ok sum)
    × (total_fee sum ≡ ok (record { canonical = grand_total (stored ∷ certified ∷ []) }))
total_fee-add_all_example = total_fee-add_all (stored ∷ certified ∷ [])

ensure_enough_funds_iff_example :
    (ensure_enough_funds node stored 14 ≡ ok tt) ↔ (sum_of stored +ℤ pos 2 ≤ℤ pos 14)
ensure_enough_funds_iff_example = ensure_enough_funds_iff node stored 14 14 refl

estimate_create_loc-total_example :
    (estimate_create_loc node 0 0 identity_loc >>= total_fee)
    ≡ ok (record { canonical = pos 3 +ℤ pos (1 * 100) +ℤ legal_due none identity +ℤ pos 0 })
estimate_create_loc-total_example =
    estimate_create_loc-total node 0 0 identity_loc 3 (λ size. 1 * size) refl (λ size. refl)

to_fees_class-view_of_example :
    to_fees_class (some (view_of stored (codes "12"))) ≡ ok (some stored)
to_fees_class-view_of_example = to_fees_class-view_of stored (codes "12")
