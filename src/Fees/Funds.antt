-- ===== src/Fees/Funds.antt =====
-- The check that an account can pay, packages/node-api/src/FeesEstimator.ts.
use logion_api.Common.{ℕ, ◌≡◌, refl, ap, ◌∙◌, ◌^◌, ◌*◌, ◌↔◌, arith, Option, none, some, ok, ◌>>=◌}
use logion_api.Common.Int.{ℤ, pos, ◌+ℤ◌, ◌≤ℤ◌, -ℤ_parts, +ℤ_parts, parts_of_eq, int_laws}
use logion_api.Currency.{Lgnt, from_canonical}
use logion_api.Currency.Arithmetic.{from-print_160, from-print_2000}
use logion_api.Fees.{Fees, total_fee}
use logion_api.Fees.Estimator.{
  Api, LocType, identity, transaction, collection, Creation, ensure_enough_funds, legal_fee_of,
  get_default_legal_fee, storage_fee_of, estimate_storage_fee, estimate_inclusion_fee,
  estimate_create_loc,
}
use logion_api.Fees.Totals.{total_fee-sum, sum_of, due}

module _ {S O : Type 0} (api : Api S O) where
  -- An account has enough funds exactly when its free balance covers the total of the fees and the
  -- existential deposit.
  pub ensure_enough_funds_iff :
      (fees : Fees) (origin : O) (free : ℕ)
      → api.free_balance origin ≡ ok free
      → (ensure_enough_funds api fees origin ≡ ok tt)
        ↔ (sum_of fees +ℤ pos api.existential_deposit ≤ℤ pos free)
  unfolding ensure_enough_funds
  ensure_enough_funds_iff fees origin free h =
      rw (total_fee-sum fees, h)
        (
          λ k. ground (
            arith,
            -ℤ_parts (pos free) (pos api.existential_deposit),
            +ℤ_parts (sum_of fees) (pos api.existential_deposit),
          ),
          λ k. ground (
            arith,
            -ℤ_parts (pos free) (pos api.existential_deposit),
            +ℤ_parts (sum_of fees) (pos api.existential_deposit),
          ),
        )

-- the legal fee that is due, in atto-LGNT: the one given, or 160 LGNT for an identity LOC and 2000
-- LGNT for another
pub legal_due : Option Lgnt → LocType → ℤ
legal_due (some fee) loc_type = fee.canonical
legal_due none identity = pos (160 * 10 ^ 18)
legal_due none transaction = pos (2000 * 10 ^ 18)
legal_due none collection = pos (2000 * 10 ^ 18)

pub legal_fee_of-due :
    (fee : Option Lgnt) (loc_type : LocType)
    → legal_fee_of fee loc_type ≡ ok (record { canonical = legal_due fee loc_type })
unfolding legal_fee_of legal_due get_default_legal_fee
legal_fee_of-due (some fee) loc_type = refl
legal_fee_of-due none identity = from-print_160
legal_fee_of-due none transaction = from-print_2000
legal_fee_of-due none collection = from-print_2000

-- what the chain asks to store files of that size, and nothing where there are none
abbrev pub storage_due : (ℕ → ℕ) → Option ℕ → ℤ
storage_due rate none = pos 0
storage_due rate (some size) = pos (rate size)

storage_fee_of-due :
    {S O : Type 0} (api : Api S O) (rate : ℕ → ℕ) (size : Option ℕ)
    → ((size : ℕ) → api.query_file_storage_fee 1 size ≡ ok (rate size))
    → (fee : Option Lgnt) × (storage_fee_of api size ≡ ok fee) × (due fee ≡ storage_due rate size)
unfolding storage_fee_of estimate_storage_fee from_canonical
storage_fee_of-due api rate none h = (none, refl, refl)
storage_fee_of-due api rate (some size) h =
    (some (record { canonical = pos (rate size) }), rw (h size), refl)

ok-eq : {a b : ℤ} → a ≡ b → ok (from_canonical a) ≡ ok (from_canonical b)
ok-eq e = ap (λ (z : ℤ). ok (from_canonical z)) e

module _ {S O : Type 0} (api : Api S O) where
  -- Where the chain answers, the fees estimated for a new LOC add up to the inclusion fee, the
  -- storage fee for one file if there is one, the legal fee given or the default of the LOC's type,
  -- and the value fee.
  pub estimate_create_loc-total :
      (origin : O) (submittable : S) (creation : Creation) (inclusion : ℕ) (rate : ℕ → ℕ)
      → api.payment_info submittable origin ≡ ok inclusion
      → ((size : ℕ) → api.query_file_storage_fee 1 size ≡ ok (rate size))
      → (estimate_create_loc api origin submittable creation >>= total_fee)
        ≡ ok (record {
          canonical =
              pos inclusion
              +ℤ storage_due rate creation.storage_size
              +ℤ legal_due creation.legal_fee creation.loc_type
              +ℤ due creation.value_fee;
        })
  unfolding estimate_create_loc estimate_inclusion_fee from_canonical
  estimate_create_loc-total origin submittable creation inclusion rate h k =
      let (fee, stored, same) = storage_fee_of-due api rate creation.storage_size k in
      rw (h, legal_fee_of-due creation.legal_fee creation.loc_type, stored)
        (total_fee-sum _ ∙ ok-eq (unfold sum_of in omega (int_laws, parts_of_eq same)))
