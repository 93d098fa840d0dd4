-- ===== src/Fees.antt =====
-- class Fees of packages/node-api/src/FeesEstimator.ts: an inclusion fee and optional fees; with
-- `toFeesClass` of packages/client/src/Fees.ts, which reads the amounts that the backend sends.
pub mod Estimator
pub mod Totals
pub mod Funds
pub mod Views
use logion_api.Common.{Option, none, some, List, [], ◌∷◌, Result, ok, ◌>>=◌}
use logion_api.Common.Int.{ℤ}
use logion_api.Numbers.Text.{Text}
use logion_api.Numbers.BigInt.{big_int}
use logion_api.Currency.{Lgnt, zero, from_canonical}
use logion_api.Currency

pub record Fees : Type 0 where
  pub inclusion_fee : Lgnt
  pub storage_fee : Option Lgnt
  pub legal_fee : Option Lgnt
  pub certificate_fee : Option Lgnt
  pub value_fee : Option Lgnt
  pub collection_item_fee : Option Lgnt
  pub tokens_record_fee : Option Lgnt

-- the constructor's argument with no optional fee
abbrev pub only_inclusion : Lgnt → Fees
only_inclusion fee = record {
  inclusion_fee = fee;
  storage_fee = none;
  legal_fee = none;
  certificate_fee = none;
  value_fee = none;
  collection_item_fee = none;
  tokens_record_fee = none;
}

unfoldable pub zero_fees : Result Fees
zero_fees = do z ← zero; ok (only_inclusion z)

-- `fee || Lgnt.zero()`
unfoldable pub or_zero : Option Lgnt → Result Lgnt
or_zero (some fee) = ok fee
or_zero none = zero

unfoldable pub total_fee : Fees → Result Lgnt
total_fee fees = do
  storage ← or_zero fees.storage_fee
  legal ← or_zero fees.legal_fee
  certificate ← or_zero fees.certificate_fee
  value ← or_zero fees.value_fee
  collection_item ← or_zero fees.collection_item_fee
  tokens_record ← or_zero fees.tokens_record_fee
  let with_storage = Currency.add fees.inclusion_fee storage
  let with_legal = Currency.add with_storage legal
  let with_certificate = Currency.add with_legal certificate
  let with_value = Currency.add with_certificate value
  let with_collection_item = Currency.add with_value collection_item
  ok (Currency.add with_collection_item tokens_record)

unfoldable pub multiply_fee : Option Lgnt → ℤ → Option Lgnt
multiply_fee (some fee) times = some (Currency.multiply times fee)
multiply_fee none times = none

unfoldable pub multiply : ℤ → Fees → Fees
multiply times fees = record {
  inclusion_fee = Currency.multiply times fees.inclusion_fee;
  storage_fee = multiply_fee fees.storage_fee times;
  legal_fee = multiply_fee fees.legal_fee times;
  certificate_fee = multiply_fee fees.certificate_fee times;
  value_fee = multiply_fee fees.value_fee times;
  collection_item_fee = multiply_fee fees.collection_item_fee times;
  tokens_record_fee = multiply_fee fees.tokens_record_fee times;
}

unfoldable pub add_fee : Option Lgnt → Option Lgnt → Option Lgnt
add_fee (some fee1) (some fee2) = some (Currency.add fee1 fee2)
add_fee (some fee1) none = some fee1
add_fee none (some fee2) = some fee2
add_fee none none = none

unfoldable pub add : Fees → Fees → Fees
add fees fee = record {
  inclusion_fee = Currency.add fees.inclusion_fee fee.inclusion_fee;
  storage_fee = add_fee fees.storage_fee fee.storage_fee;
  legal_fee = add_fee fees.legal_fee fee.legal_fee;
  certificate_fee = add_fee fees.certificate_fee fee.certificate_fee;
  value_fee = add_fee fees.value_fee fee.value_fee;
  collection_item_fee = add_fee fees.collection_item_fee fee.collection_item_fee;
  tokens_record_fee = add_fee fees.tokens_record_fee fee.tokens_record_fee;
}

unfoldable pub add_from : Fees → List Fees → Fees
add_from current [] = current
add_from current (next ∷ rest) = add_from (add current next) rest

-- `fees.reduce((cur, next) => cur.add(next), Fees.zero())`
unfoldable pub add_all : List Fees → Result Fees
add_all fees = do z ← zero_fees; ok (add_from z fees)

-- interface Fees of the client: an amount left out or empty is `undefined`
pub record FeesView : Type 0 where
  pub inclusion : Text
  pub storage : Text
  pub legal : Text
  pub certificate : Text
  pub value : Text
  pub collection_item : Text
  pub tokens_record : Text
  pub total : Text

-- `view ? Lgnt.fromCanonical(BigInt(view)) : undefined`
unfoldable pub read_fee : Text → Result (Option Lgnt)
read_fee [] = ok none
read_fee (c ∷ text) = do z ← big_int (c ∷ text); ok (some (from_canonical z))

unfoldable pub to_fees_class : Option FeesView → Result (Option Fees)
to_fees_class none = ok none
to_fees_class (some fees) = do
  inclusion ← big_int fees.inclusion
  storage ← read_fee fees.storage
  legal ← read_fee fees.legal
  certificate ← read_fee fees.certificate
  value ← read_fee fees.value
  collection_item ← read_fee fees.collection_item
  tokens_record ← read_fee fees.tokens_record
  ok (
      some (record {
        inclusion_fee = from_canonical inclusion;
        storage_fee = storage;
        legal_fee = legal;
        certificate_fee = certificate;
        value_fee = value;
        collection_item_fee = collection_item;
        tokens_record_fee = tokens_record;
      }))
