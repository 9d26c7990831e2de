-- ===== src/Settlement/Refunds/Input.antt =====
-- The input of recordRefund in src/settlement/settlement-refunds.service.ts, and its checks before the
-- transaction. An identifier is a number, so the refusal of an empty one has no counterpart.
use Prim.Native.String.{String}
use qift_platform.Prelude.{
  ℕ, ◌+◌, ◌*◌, Bool, true, false, not, ◌||◌, Option, none, some, ltb, if◌then◌else◌,
}
use qift_platform.Prelude.Text.{trim, is_empty}
use qift_platform.Prelude.Int.{ℤ, pos, leb_ℤ}
use qift_platform.Prelude.Outcome.{Result, ok, err}
use qift_platform.Money.{CurrencyCode, to_minor, from_minor}
use qift_platform.Settlement.Errors.{
  SettlementError, refund_invoice_type_unknown, refund_evidence_required, refund_reason_required,
  refund_refunded_at_invalid, refund_refunded_at_out_of_window, refund_amount_must_be_positive,
}
use qift_platform.Settlement.Policy.{hour_ms, executed_at_max_age_hours, executed_at_max_skew_hours}
use qift_platform.Settlement.Execution.{Env, assert_gates_open}
use qift_platform.Settlement.Refunds.Note.{IssuanceInput}

pub data RefundInvoiceType : Type 0 where
  merchant_invoice unknown_invoice : RefundInvoiceType

-- `new Date(refundedAt)` is `none` where it is no date.
pub record RecordRefundInput : Type 0 where
  pub invoice_type : RefundInvoiceType
  pub invoice_id : ℕ
  pub amount : ℤ
  pub reason : String
  pub evidence_ref : String
  pub refunded_at : Option ℕ
  pub issuance : IssuanceInput

-- What the validation of an input leaves: the amount in minor units and the trimmed texts.
pub record RefundRequest : Type 0 where
  pub invoice_id : ℕ
  pub amount_minor : ℤ
  pub reason : String
  pub evidence_ref : String
  pub refunded_at : ℕ
  pub issuance : IssuanceInput

abbrev pub minor : ℤ → ℤ
minor amount = to_minor CurrencyCode.sar amount

-- The amount that the rows of a request carry.
abbrev pub major : RefundRequest → ℤ
major r = from_minor CurrencyCode.sar r.amount_minor

abbrev pub out_of_window : (now at : ℕ) → Bool
out_of_window now at =
    ltb (at + executed_at_max_age_hours * hour_ms) now
    || ltb (now + executed_at_max_skew_hours * hour_ms) at

abbrev pub is_merchant_invoice : RefundInvoiceType → Bool
is_merchant_invoice merchant_invoice = true
is_merchant_invoice unknown_invoice = false

-- The checks before the transaction, in their order.
unfoldable pub checked_refund :
    Env → (now : ℕ) → RecordRefundInput → Result SettlementError RefundRequest
unfolding assert_gates_open
checked_refund env now input = elim (assert_gates_open env) [
  | err e ↦ err e
  | ok _ ↦
      if not (is_merchant_invoice input.invoice_type)
      then err refund_invoice_type_unknown
      else if is_empty (trim input.evidence_ref)
      then err refund_evidence_required
      else if is_empty (trim input.reason)
      then err refund_reason_required
      else elim input.refunded_at [
        | none ↦ err refund_refunded_at_invalid
        | some at ↦
            if out_of_window now at
            then err refund_refunded_at_out_of_window
            else if leb_ℤ (minor input.amount) (pos 0)
            then err refund_amount_must_be_positive
            else ok (record {
              invoice_id = input.invoice_id;
              amount_minor = minor input.amount;
              reason = trim input.reason;
              evidence_ref = trim input.evidence_ref;
              refunded_at = at;
              issuance = input.issuance;
            })
      ]
]
