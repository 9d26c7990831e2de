-- ===== src/Settlement/Refunds/Amounts.antt =====
-- The sums over receipts and refunds of an invoice, and the VAT that a refund reverses
-- (src/settlement/settlement-refunds.service.ts).
use Prim.Native.String.{String}
use text.Mathlib.Text.{◌==◌ as str_eq}
use qift_platform.Prelude.{ℕ, suc, ◌==◌, Bool, ◌&&◌, List, filter, map, if◌then◌else◌}
use qift_platform.Prelude.Int.{
  ℤ, pos, negsuc, pos_part, ◌+ℤ◌, ◌-ℤ◌, ◌*ℕ◌, floor_div, sum_ℤ, eqb_ℤ, min_ℤ, max_ℤ,
}
use qift_platform.Settlement.Store.{PaymentReceipt, SettlementRefund}
use qift_platform.Settlement.Refunds.Input.{minor}

-- A row of the refunds of a merchant invoice.
abbrev pub refund_of : ℕ → SettlementRefund → Bool
refund_of invoice r = str_eq r.invoice_type "merchant_invoice" && r.invoice_id == invoice

abbrev pub receipt_of : ℕ → PaymentReceipt → Bool
receipt_of invoice r = str_eq r.invoice_type "merchant_invoice" && r.invoice_id == invoice

-- The unique key of a refund.
abbrev pub has_evidence : ℕ → String → SettlementRefund → Bool
has_evidence invoice evidence r = refund_of invoice r && str_eq r.evidence_ref evidence

unfoldable pub received_minor : ℕ → List PaymentReceipt → ℤ
received_minor invoice rows =
    sum_ℤ (map (λ (r : PaymentReceipt). minor r.amount) (filter (receipt_of invoice) rows))

unfoldable pub refunded_minor : ℕ → List SettlementRefund → ℤ
refunded_minor invoice rows =
    sum_ℤ (map (λ (r : SettlementRefund). minor r.amount) (filter (refund_of invoice) rows))

-- `priorVatMinor`
unfoldable pub refunded_vat_minor : ℕ → List SettlementRefund → ℤ
refunded_vat_minor invoice rows =
    sum_ℤ (map (λ (r : SettlementRefund). minor r.vat_component) (filter (refund_of invoice) rows))

-- `Math.floor(x / d)` for a divisor that is not zero.
abbrev pub floor_quotient : ℤ → ℤ → ℤ
floor_quotient x (pos d) = floor_div x d
floor_quotient x (negsuc d) = floor_div (pos 0 -ℤ x) (suc d)

-- A positive amount times a number.
abbrev pub times : ℤ → ℤ → ℤ
times amount x = x *ℕ pos_part amount

-- `vatComponentMinor`: the share of the frozen VAT, half up; at most what is left of it, all of which
-- goes to the refund that completes the total.
unfoldable pub vat_component_minor : (total vat refunded prior amount : ℤ) → ℤ
vat_component_minor total vat refunded prior amount =
    let left = max_ℤ (pos 0) (vat -ℤ prior) in
    if eqb_ℤ (refunded +ℤ amount) total
    then min_ℤ amount left
    else min_ℤ
        (if eqb_ℤ total (pos 0)
          then pos 0
          else floor_quotient (times amount vat +ℤ floor_div total 2) total)
        left
