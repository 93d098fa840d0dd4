-- ===== src/Fees/Estimator.antt =====
-- class FeesEstimator of packages/node-api/src/FeesEstimator.ts. The answers of the chain come
-- from an interface; amounts of the chain are numbers without sign.
use logion_api.Common.{ℕ, Option, none, some, Result, ok, ◌>>=◌, guard, not}
use logion_api.Common.Int.{pos, ◌-ℤ◌, ltb_ℤ}
use logion_api.Numbers.BigInt.{print}
use logion_api.Currency.{Lgnt, from_canonical, from}
use logion_api.Fees.{Fees, only_inclusion, total_fee}

-- The queries of @polkadot/api that the estimator makes.
pub record Api (Submittable : Type 0) (Origin : Type 0) : Type 0 where
  pub payment_info : Submittable → Origin → Result ℕ
  pub query_file_storage_fee : ℕ → ℕ → Result ℕ
  pub query_certificate_fee : ℕ → Result ℕ
  pub free_balance : Origin → Result ℕ
  pub existential_deposit : ℕ

pub data LocType : Type 0 where
  transaction identity collection : LocType

-- what `estimateCreateLoc` takes
pub record Creation : Type 0 where
  pub loc_type : LocType
  pub value_fee : Option Lgnt
  pub legal_fee : Option Lgnt
  pub storage_size : Option ℕ

unfoldable pub get_default_legal_fee : LocType → Result Lgnt
get_default_legal_fee identity = from (print (pos 160))
get_default_legal_fee transaction = from (print (pos 2000))
get_default_legal_fee collection = from (print (pos 2000))

unfoldable pub legal_fee_of : Option Lgnt → LocType → Result Lgnt
legal_fee_of (some legal_fee) loc_type = ok legal_fee
legal_fee_of none loc_type = get_default_legal_fee loc_type

-- `params.tokenIssuance || 0n`
unfoldable pub issuance_or_zero : Option ℕ → ℕ
issuance_or_zero none = 0
issuance_or_zero (some token_issuance) = token_issuance

module _ {S O : Type 0} where
  unfoldable pub estimate_inclusion_fee : Api S O → O → S → Result Lgnt
  estimate_inclusion_fee api origin submittable = do
    partial_fee ← api.payment_info submittable origin
    ok (from_canonical (pos partial_fee))

  unfoldable pub estimate_storage_fee : Api S O → ℕ → ℕ → Result Lgnt
  estimate_storage_fee api num_of_entries tot_size = do
    fee ← api.query_file_storage_fee num_of_entries tot_size
    ok (from_canonical (pos fee))

  unfoldable pub estimate_certificate_fee : Api S O → ℕ → Result Lgnt
  estimate_certificate_fee api token_issuance = do
    fee ← api.query_certificate_fee token_issuance
    ok (from_canonical (pos fee))

  unfoldable pub estimate_with_storage : Api S O → O → S → ℕ → Result Fees
  estimate_with_storage api origin submittable size = do
    inclusion_fee ← estimate_inclusion_fee api origin submittable
    storage_fee ← estimate_storage_fee api 1 size
    ok (record (only_inclusion inclusion_fee) { storage_fee = some storage_fee })

  unfoldable pub estimate_without_storage : Api S O → O → S → Result Fees
  estimate_without_storage api origin submittable = do
    inclusion_fee ← estimate_inclusion_fee api origin submittable
    ok (only_inclusion inclusion_fee)

  unfoldable pub storage_fee_of : Api S O → Option ℕ → Result (Option Lgnt)
  storage_fee_of api none = ok none
  storage_fee_of api (some storage_size) = do
    storage_fee ← estimate_storage_fee api 1 storage_size
    ok (some storage_fee)

  unfoldable pub estimate_create_loc : Api S O → O → S → Creation → Result Fees
  estimate_create_loc api origin submittable creation = do
    inclusion_fee ← estimate_inclusion_fee api origin submittable
    legal_fee ← legal_fee_of creation.legal_fee creation.loc_type
    storage_fee ← storage_fee_of api creation.storage_size
    ok (record (only_inclusion inclusion_fee) {
      legal_fee = some legal_fee;
      value_fee = creation.value_fee;
      storage_fee = storage_fee;
    })

  unfoldable pub estimate_add_collection_item :
      Api S O → O → S → ℕ → ℕ → Option ℕ → Lgnt → Result Fees
  estimate_add_collection_item api origin submittable num_of_entries tot_size issuance item_fee = do
    inclusion_fee ← estimate_inclusion_fee api origin submittable
    storage_fee ← estimate_storage_fee api num_of_entries tot_size
    certificate_fee ← estimate_certificate_fee api (issuance_or_zero issuance)
    ok (record (only_inclusion inclusion_fee) {
      storage_fee = some storage_fee;
      certificate_fee = some certificate_fee;
      collection_item_fee = some item_fee;
    })

  unfoldable pub estimate_add_tokens_record : Api S O → O → S → ℕ → ℕ → Lgnt → Result Fees
  estimate_add_tokens_record api origin submittable num_of_entries tot_size tokens_record_fee = do
    inclusion_fee ← estimate_inclusion_fee api origin submittable
    storage_fee ← estimate_storage_fee api num_of_entries tot_size
    ok (record (only_inclusion inclusion_fee) {
      storage_fee = some storage_fee;
      tokens_record_fee = some tokens_record_fee;
    })

  unfoldable pub ensure_enough_funds : Api S O → Fees → O → Result (Unit {0})
  ensure_enough_funds api fees origin = do
    total_fees ← total_fee fees
    free ← api.free_balance origin
    guard (not (ltb_ℤ (pos free -ℤ pos api.existential_deposit) total_fees.canonical))
        "Not enough funds"
