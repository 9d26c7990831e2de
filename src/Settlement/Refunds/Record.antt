-- ===== src/Settlement/Refunds/Record.antt =====
-- recordRefund of src/settlement/settlement-refunds.service.ts: the checks of the input, the
-- transaction, and the audits of what it recorded or found.
use qift_platform.Prelude.{ℕ, ◌==◌, ◌&&◌, Bool, true, false, not, if◌then◌else◌}
use qift_platform.Prelude.Int.{eqb_ℤ}
use qift_platform.Prelude.Outcome.{err}
use qift_platform.Settlement.Errors.{refund_evidence_conflict}
use qift_platform.Settlement.Store.{SettlementRefund, AuditAction}
use qift_platform.Settlement.Call.{Call, check, transaction, returns, ◌>>=◌, ◌>>◌}
use qift_platform.Settlement.Canonical.{Platform}
use qift_platform.Settlement.Engine.Assemble.{audit_guaranteed}
use qift_platform.Settlement.Execution.{Env}
use qift_platform.Settlement.Refunds.Input.{RecordRefundInput, RefundRequest, minor, checked_refund}
use qift_platform.Settlement.Refunds.{Recorded, existing, created, Draws, refund_tx}

-- The audit of the recorded refund.
unfoldable pub audit_recorded :
    (actor : ℕ) → (replayed : Bool) → SettlementRefund → Call (SettlementRefund × Bool)
audit_recorded actor replayed refund =
    transaction (audit_guaranteed AuditAction.refund_recorded refund.id actor refund.store_id)
    >> returns (refund, replayed)

module _ (p : Platform) (actor now : ℕ) (draws : Draws) where
  -- The audits, and what the call returns with the flag of a replay.
  unfoldable pub audited : RefundRequest → Recorded → Call (SettlementRefund × Bool)
  unfolding audit_recorded
  audited r (existing refund) =
      if not (eqb_ℤ (minor refund.amount) r.amount_minor && refund.refunded_at == r.refunded_at)
      then check (λ db. err refund_evidence_conflict)
      else audit_recorded actor true refund
  audited r (created refund) =
      transaction (audit_guaranteed AuditAction.credit_note_issued refund.id actor refund.store_id)
      >> audit_recorded actor false refund

  unfoldable pub record_refund : Env → RecordRefundInput → Call (SettlementRefund × Bool)
  unfolding audited checked_refund
  record_refund env input =
      check (λ db. checked_refund env now input)
      >>= (λ r. transaction (refund_tx p actor now draws r) >>= audited r)
