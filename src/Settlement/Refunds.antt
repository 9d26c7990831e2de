-- ===== src/Settlement/Refunds.antt =====
-- src/settlement/settlement-refunds.service.ts: the refund of a merchant invoice (recordRefund). The
-- lane of the fee invoice and the two-person requests are left out.
mod Tests
pub mod Input
pub mod Amounts
pub mod Note
pub mod Rows
pub mod Interactions
pub mod Record
pub mod Sums
pub mod Written
pub mod Ended
pub mod Shares
pub mod Covered
pub mod Audited
pub mod Again
pub mod Replay
pub mod Due
pub mod Taken
pub mod Owed
pub mod Conserved
use Prim.Native.String.{String}
use text.Mathlib.Text.{◌==◌ as str_eq}
use qift_platform.Prelude.{
  ℕ, suc, ◌+◌, ◌*◌, ◌==◌, Bool, true, false, not, ◌&&◌, ◌||◌, Option, none, some, List, [], ◌∷◌,
  ◌++◌, filter, find, map, ltb, if◌then◌else◌,
}
use qift_platform.Prelude.Text.{trim, is_empty}
use qift_platform.Prelude.Int.{
  ℤ, pos, negsuc, pos_part, ◌+ℤ◌, ◌-ℤ◌, ◌*ℕ◌, floor_div, sum_ℤ, eqb_ℤ, ltb_ℤ, leb_ℤ, min_ℤ, max_ℤ,
}
use qift_platform.Prelude.Outcome.{Result, ok, err}
use qift_platform.Money.{CurrencyCode, to_minor, from_minor}
use qift_platform.Ledger.{
  RecordLedgerInput, ActorType, Direction, Counterparty, Metadata, refund_paid,
  merchant_receivable_accrued, ledger_idempotency_key, option_eq,
}
use qift_platform.Settlement.Errors.{
  SettlementError, refund_invoice_type_unknown, refund_evidence_required, refund_reason_required,
  refund_refunded_at_invalid, refund_refunded_at_out_of_window, refund_amount_must_be_positive,
  invoice_not_found, refund_currency_unsupported, refund_exceeds_collected, settlement_item_missing,
  item_bound_supersede_first, item_disputed, refund_exceeds_item, settlement_items_contended,
  refund_evidence_conflict, refund_requires_paid_invoice,
}
use qift_platform.Settlement.States.{ItemState, item_eq, ReceivableState, assert_item_transition}
use qift_platform.Settlement.Policy.{hour_ms, executed_at_max_age_hours, executed_at_max_skew_hours}
use qift_platform.Settlement.Store.{
  Db, Item, Receivable, MerchantInvoice, PaymentReceipt, Interaction, item_reduced,
  receivable_accrued, SettlementRefund, AuditAction, Tx, ◌>>=◌, ◌>>◌, pure, throw, gets, lift,
  or_throw, throw_when, modify, update_many, count, post,
}
use qift_platform.Settlement.Call.{Call, check, transaction, returns}
use qift_platform.Settlement.Call
use qift_platform.Settlement.Canonical.{Platform}
use qift_platform.Settlement.Engine.Assemble.{audit_guaranteed}
use qift_platform.Settlement.Execution.{Env, assert_gates_open}
use qift_platform.Settlement.Refunds.Note.{IssuanceInput, issue_note}
use qift_platform.Settlement.Refunds.Input.{
  RefundInvoiceType, merchant_invoice, RecordRefundInput, RefundRequest, minor, major,
  checked_refund,
}
use qift_platform.Settlement.Refunds.Amounts.{
  refund_of, has_evidence, received_minor, refunded_minor, refunded_vat_minor, vat_component_minor,
}
use qift_platform.Settlement.Refunds.Rows.{
  refund_row, refund_posting, receivable_posting, receivable_row,
}
use qift_platform.Settlement.Refunds.Interactions.{is_occurrence, interact, accrue}

abbrev pub has_invoice_id : ℕ → MerchantInvoice → Bool
has_invoice_id id i = i.id == id

-- What the database draws: the rows' identifiers and the candidate references of the credit note.
pub record Draws : Type 0 where
  pub refund_id : ℕ
  pub receivable_id : ℕ
  pub note_id : ℕ
  pub references : List String

pub data Recorded : Type 0 where
  existing : SettlementRefund → Recorded
  created : SettlementRefund → Recorded

module _ (p : Platform) (actor now : ℕ) (draws : Draws) where
  -- The rows of a refund: itself, its credit note, its posting and its receivable.
  unfoldable pub write_refund :
      RefundRequest
      → MerchantInvoice
      → (before : List SettlementRefund) → Item
      → SettlementRefund
      → Tx Recorded
  unfolding accrue refund_posting
  write_refund r invoice before item refund = do
    modify (λ db. record db { refunds = db.refunds ++ refund ∷ [] })
    issue_note p actor now draws.note_id draws.references r.issuance invoice refund
    post (refund_posting actor refund)
    accrue actor draws.receivable_id item before r.amount_minor refund refund.settlement_interaction
    pure (created refund)

  -- The VAT of a refund, over the rows that are there.
  abbrev pub vat_of : RefundRequest → MerchantInvoice → List SettlementRefund → ℤ
  vat_of r invoice before =
      vat_component_minor (minor invoice.total_amount) (minor invoice.vat_amount)
        (refunded_minor invoice.id before) (refunded_vat_minor invoice.id before) r.amount_minor

  -- A movement that is not there yet.
  unfoldable pub new_refund : RefundRequest → MerchantInvoice → Tx Recorded
  unfolding interact write_refund refund_row
  new_refund r invoice = do
    throw_when (not (str_eq invoice.status "paid")) (refund_requires_paid_invoice invoice.status)
    received ← gets (λ db. received_minor invoice.id db.receipts)
    before ← gets (λ db. db.refunds)
    throw_when (ltb_ℤ received (refunded_minor invoice.id before +ℤ r.amount_minor))
        refund_exceeds_collected
    item ← (λ db. or_throw (find (is_occurrence invoice.id) db.items) settlement_item_missing db)
    interaction ← interact item.state item r.amount_minor
    write_refund r invoice before item
        (refund_row actor draws.refund_id r invoice (vat_of r invoice before) interaction)

  unfoldable pub found_or_new :
      RefundRequest → MerchantInvoice → Option SettlementRefund → Tx Recorded
  unfolding new_refund
  found_or_new r invoice (some refund) = pure (existing refund)
  found_or_new r invoice none = new_refund r invoice

  -- The transaction: the replay by identity comes before every check of a balance.
  unfoldable pub refund_tx : RefundRequest → Tx Recorded
  unfolding found_or_new
  refund_tx r = do
    invoice ← (λ db. or_throw (find (has_invoice_id r.invoice_id) db.invoices) invoice_not_found db)
    throw_when (not (str_eq invoice.currency "SAR")) refund_currency_unsupported
    found ← gets (λ db. find (has_evidence invoice.id r.evidence_ref) db.refunds)
    found_or_new r invoice found
