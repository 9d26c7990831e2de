-- ===== src/Settlement/Refunds/Rows.antt =====
-- The rows and postings that a refund writes (src/settlement/settlement-refunds.service.ts).
use Prim.Native.String.{String}
use qift_platform.Prelude.{ℕ, none, some}
use qift_platform.Prelude.Int.{ℤ, pos}
use qift_platform.Money.{CurrencyCode, from_minor}
use qift_platform.Ledger.{
  RecordLedgerInput, ActorType, Direction, Counterparty, Metadata, refund_paid,
  merchant_receivable_accrued, ledger_idempotency_key,
}
use qift_platform.Settlement.States.{ReceivableState}
use qift_platform.Settlement.Store.{
  Receivable, MerchantInvoice, Interaction, item_reduced, receivable_accrued, SettlementRefund,
}
use qift_platform.Settlement.Refunds.Input.{RefundRequest, major}

unfoldable pub refund_row :
    (actor fresh : ℕ) → RefundRequest → MerchantInvoice → (vat : ℤ) → Interaction → SettlementRefund
refund_row actor fresh r invoice vat interaction = record {
  id = fresh;
  invoice_type = "merchant_invoice";
  invoice_id = invoice.id;
  store_id = invoice.store_id;
  org_id = invoice.org_id;
  campaign_id = invoice.campaign_id;
  currency = "SAR";
  amount = major r;
  vat_component = from_minor CurrencyCode.sar vat;
  reason = r.reason;
  evidence_ref = r.evidence_ref;
  refunded_at = r.refunded_at;
  recorded_by = actor;
  settlement_interaction = interaction;
}

-- The account that the money leaves.
abbrev pub account_of : Interaction → String
account_of receivable_accrued = "operating"
account_of item_reduced = "safeguarding"

unfoldable pub refund_posting : (actor : ℕ) → SettlementRefund → RecordLedgerInput
refund_posting actor refund = record {
  event_type = refund_paid;
  reason_code = "REFUND_GOODS";
  actor_type = ActorType.user;
  actor_id = some actor;
  amount = refund.amount;
  currency = "SAR";
  direction = Direction.debit;
  counterparty = some Counterparty.company;
  order_id = none;
  payment_id = none;
  store_id = some refund.store_id;
  metadata =
      Metadata.refund_of_goods refund.invoice_id refund.evidence_ref
        (account_of refund.settlement_interaction) refund.vat_component;
  idempotency_key = some (ledger_idempotency_key refund_paid refund.id);
}

unfoldable pub receivable_posting : (actor : ℕ) → SettlementRefund → RecordLedgerInput
receivable_posting actor refund = record {
  event_type = merchant_receivable_accrued;
  reason_code = "MERCHANT_RECEIVABLE";
  actor_type = ActorType.user;
  actor_id = some actor;
  amount = refund.amount;
  currency = "SAR";
  direction = Direction.credit;
  counterparty = some Counterparty.merchant;
  order_id = none;
  payment_id = none;
  store_id = some refund.store_id;
  metadata = Metadata.receivable_of_refund refund.id refund.invoice_id;
  idempotency_key = some (ledger_idempotency_key merchant_receivable_accrued refund.id);
}

-- The receivable of a clawback, open.
unfoldable pub receivable_row : (fresh : ℕ) → SettlementRefund → Receivable
receivable_row fresh refund = record {
  id = fresh;
  store_id = refund.store_id;
  currency = "SAR";
  occurrence_id = refund.id;
  amount = refund.amount;
  amount_recovered = pos 0;
  state = ReceivableState.open_;
  staged_by = none;
  recovered_at = none;
  recovered_by = none;
}
