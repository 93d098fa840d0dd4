-- ===== src/Fees/Views.antt =====
-- The fees that the backend sends, packages/client/src/Fees.ts.
use logion_api.Common.{◌≡◌, ◌≢◌, ◌∙◌, refl, Option, none, some, [], ◌∷◌, ok, ◌>>=◌}
use logion_api.Numbers.Text.{Text}
use logion_api.Numbers.BigInt.{print, big_int, big_int-print, print-ne-nil}
use logion_api.Currency.{Lgnt, from_canonical, to_string}
use logion_api.Fees.{Fees, FeesView, read_fee, to_fees_class}

-- an optional fee as text, left out when there is none
abbrev pub fee_text : Option Lgnt → Text
fee_text none = []
fee_text (some fee) = to_string fee

-- fees as the backend sends them, with a total
abbrev pub view_of : Fees → Text → FeesView
view_of fees total = record {
  inclusion = to_string fees.inclusion_fee;
  storage = fee_text fees.storage_fee;
  legal = fee_text fees.legal_fee;
  certificate = fee_text fees.certificate_fee;
  value = fee_text fees.value_fee;
  collection_item = fee_text fees.collection_item_fee;
  tokens_record = fee_text fees.tokens_record_fee;
  total = total;
}

read_fee_cons : (t : Text) → t ≢ [] → read_fee t ≡ big_int t >>= λ z. ok (some (from_canonical z))
unfolding read_fee
read_fee_cons [] h = absurd (h refl)
read_fee_cons (c ∷ t) h = refl

read_fee-fee_text : (fee : Option Lgnt) → read_fee (fee_text fee) ≡ ok fee
unfolding to_string from_canonical
read_fee-fee_text none = unfold read_fee in refl
read_fee-fee_text (some fee) =
    read_fee_cons (print fee.canonical) (print-ne-nil fee.canonical)
    ∙ rw (big_int-print fee.canonical)

-- Fees written as texts, those that are undefined left out, are read back unchanged by toFeesClass,
-- whatever the total sent with them.
pub to_fees_class-view_of :
    (fees : Fees) (total : Text) → to_fees_class (some (view_of fees total)) ≡ ok (some fees)
unfolding to_fees_class to_string from_canonical
to_fees_class-view_of fees total = rw (
  big_int-print fees.inclusion_fee.canonical,
  read_fee-fee_text fees.storage_fee,
  read_fee-fee_text fees.legal_fee,
  read_fee-fee_text fees.certificate_fee,
  read_fee-fee_text fees.value_fee,
  read_fee-fee_text fees.collection_item_fee,
  read_fee-fee_text fees.tokens_record_fee,
)
