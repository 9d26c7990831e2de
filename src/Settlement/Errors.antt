-- ===== src/Settlement/Errors.antt =====
-- The errors that the settlement subsystem (src/settlement) throws, by their codes.
use Prim.Native.String.{String}
use qift_platform.Ledger.{LedgerError}

pub data SettlementError : Type 0 where
  illegal_item_transition illegal_batch_transition illegal_receivable_transition : SettlementError
  currency_scale_unsupported unknown_currency empty_composition currencies_never_sum :
      SettlementError
  preview_batch_mismatch preview_reference_mismatch preview_snapshot_mismatch : SettlementError
  replay_not_verified approval_required approval_batch_mismatch : SettlementError
  approval_snapshot_mismatch executor_cannot_approve : SettlementError
  nothing_eligible negative_net_deferred items_contended receivables_contended : SettlementError
  unique_violation failure_evidence_required hold_evidence_required : SettlementError
  hold_type_and_evidence_required : SettlementError
  supersede_refused_remittance_exists supersede_item_not_in_batch : SettlementError
  closed_zero_net settled_without_remittance batch_contended already_remitted : SettlementError
  zero_net_close_requires_exact_zero batch_not_found successor_cannot_be_self : SettlementError
  successor_link_requires_superseded : SettlementError
  preview_requires_ready approval_requires_ready batch_proposer_unknown : SettlementError
  approver_cannot_be_proposer approval_snapshot_stale already_approved_by_user : SettlementError
  gates_not_attested bank_reference_required executed_at_invalid : SettlementError
  execution_requires_ready use_zero_net_close requires_positive_net : SettlementError
  executed_at_out_of_window preview_hash_mismatch preview_act_required : SettlementError
  approval_expired insufficient_approvals senior_approval_required batch_drifted : SettlementError
  remittance_conflict zero_net_close_state_missing statement_not_issued : SettlementError
  statement_integrity_violation closure_and_remittance_exclusive : SettlementError
  refund_invoice_type_unknown refund_evidence_required refund_reason_required : SettlementError
  refund_refunded_at_invalid refund_refunded_at_out_of_window : SettlementError
  refund_amount_must_be_positive invoice_not_found refund_currency_unsupported : SettlementError
  refund_exceeds_collected settlement_item_missing item_bound_supersede_first : SettlementError
  item_disputed refund_exceeds_item settlement_items_contended : SettlementError
  credit_note_series_separation credit_note_source_unknown : SettlementError
  on_behalf_requires_legal_number on_behalf_requires_authorization_evidence : SettlementError
  reference_allocation_exhausted refund_evidence_conflict : SettlementError
  refund_requires_paid_invoice : String → SettlementError
  ledger_refused : LedgerError → SettlementError
