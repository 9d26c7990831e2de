-- ===== src/Settlement/Refunds/Shares.antt =====
-- What one more refund adds to the sums of its invoice
-- (src/settlement/settlement-refunds.service.ts).
use qift_platform.Prelude.{
  ℕ, List, [], ◌∷◌, ◌++◌, ◌≡◌, refl, ap, ◌∙◌, ◌==◌, if◌then◌else◌, if_both, arith,
}
use qift_platform.Prelude.Int.{
  ℤ, pos, ◌+ℤ◌, ◌-ℤ◌, ◌≤ℤ◌, eqb_ℤ, min_ℤ, max_ℤ, floor_div, +ℤ_parts, -ℤ_parts,
}
use qift_platform.Money.{CurrencyCode}
use qift_platform.Money.Rounding.{to_minor-from_minor}
use qift_platform.Settlement.Store.{MerchantInvoice, SettlementRefund, Interaction}
use qift_platform.Settlement.Refunds.Input.{RefundRequest, minor}
use qift_platform.Settlement.Refunds.Amounts.{
  refund_of, refunded_minor, refunded_vat_minor, vat_component_minor, floor_quotient, times,
}
use qift_platform.Settlement.Refunds.Rows.{refund_row}
use qift_platform.Settlement.Refunds.Sums.{share, sum-append_row}

min-le-right : (a b : ℤ) → min_ℤ a b ≤ℤ b
min-le-right a b = ground arith

-- The VAT of a refund is at most what is left of the frozen VAT.
pub vat_capped :
    (total vat refunded prior amount : ℤ)
    → vat_component_minor total vat refunded prior amount ≤ℤ max_ℤ (pos 0) (vat -ℤ prior)
unfolding vat_component_minor
vat_capped total vat refunded prior amount =
    if_both (λ (x : ℤ). x ≤ℤ max_ℤ (pos 0) (vat -ℤ prior)) (eqb_ℤ (refunded +ℤ amount) total)
      (min-le-right amount (max_ℤ (pos 0) (vat -ℤ prior)))
      (min-le-right
        (if eqb_ℤ total (pos 0)
          then pos 0
          else floor_quotient (times amount vat +ℤ floor_div total 2) total)
        (max_ℤ (pos 0) (vat -ℤ prior)))

pub add_capped :
    (prior part vat : ℤ)
    → part ≤ℤ max_ℤ (pos 0) (vat -ℤ prior)
    → prior ≤ℤ max_ℤ (pos 0) vat
    → prior +ℤ part ≤ℤ max_ℤ (pos 0) vat
add_capped prior part vat h k = ground (arith, -ℤ_parts vat prior, +ℤ_parts prior part)

module _ (actor fresh : ℕ) (r : RefundRequest) (invoice : MerchantInvoice) (vat : ℤ)
    (interaction : Interaction) where
  abbrev row : SettlementRefund
  row = refund_row actor fresh r invoice vat interaction

  row_of : (id : ℕ) → refund_of id row ≡ (invoice.id == id)
  unfolding refund_row
  row_of id = refl

  pub row_amount : minor row.amount ≡ r.amount_minor
  unfolding refund_row
  row_amount = to_minor-from_minor CurrencyCode.sar r.amount_minor

  row_vat : minor row.vat_component ≡ vat
  unfolding refund_row
  row_vat = to_minor-from_minor CurrencyCode.sar vat

  share_amount :
      (id : ℕ)
      → share (refund_of id) (λ (x : SettlementRefund). minor x.amount) row
        ≡ (if invoice.id == id then r.amount_minor else pos 0)
  share_amount id = rw (row_of id, row_amount) refl

  share_vat :
      (id : ℕ)
      → share (refund_of id) (λ (x : SettlementRefund). minor x.vat_component) row
        ≡ (if invoice.id == id then vat else pos 0)
  share_vat id = rw (row_of id, row_vat) refl

-- The sums after one more row.
module _ (actor fresh : ℕ) (r : RefundRequest) (invoice : MerchantInvoice) (vat : ℤ)
    (interaction : Interaction) (rows : List SettlementRefund) where
  pub refunded_after :
      (id : ℕ)
      → refunded_minor id (rows ++ row actor fresh r invoice vat interaction ∷ [])
        ≡ refunded_minor id rows +ℤ (if invoice.id == id then r.amount_minor else pos 0)
  unfolding refunded_minor
  refunded_after id =
      sum-append_row (refund_of id) (λ (x : SettlementRefund). minor x.amount) rows
        (row actor fresh r invoice vat interaction)
      ∙ ap (λ (x : ℤ). refunded_minor id rows +ℤ x)
          (share_amount actor fresh r invoice vat interaction id)

  pub vat_after :
      (id : ℕ)
      → refunded_vat_minor id (rows ++ row actor fresh r invoice vat interaction ∷ [])
        ≡ refunded_vat_minor id rows +ℤ (if invoice.id == id then vat else pos 0)
  unfolding refunded_vat_minor
  vat_after id =
      sum-append_row (refund_of id) (λ (x : SettlementRefund). minor x.vat_component) rows
        (row actor fresh r invoice vat interaction)
      ∙ ap (λ (x : ℤ). refunded_vat_minor id rows +ℤ x)
          (share_vat actor fresh r invoice vat interaction id)
