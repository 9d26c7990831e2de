-- ===== src/Settlement/Binding.antt =====
-- src/settlement/settlement-execution-binding.ts: the preview of an execution, which recomputes the
-- frozen calculation and compares, and the gate between preview, approvals and execution.
pub mod Gate
pub mod Recomputed
pub mod Assembled
use Prim.Native.String.{String}
use text.Mathlib.Text.{◌==◌ as str_eq}
use qift_platform.Prelude.{
  ℕ, Bool, true, false, not, ◌&&◌, ◌||◌, Option, none, some, List, [], ◌∷◌, ◌==◌, map,
  if◌then◌else◌,
}
use qift_platform.Prelude.Int.{ℤ, pos, ◌+ℤ◌}
use qift_platform.Prelude.Outcome.{Result, ok, err, ◌>>=◌, ◌>>◌, throw_if}
use qift_platform.Settlement.Errors.{
  SettlementError, preview_batch_mismatch, preview_reference_mismatch, preview_snapshot_mismatch,
  replay_not_verified, approval_required, approval_batch_mismatch, approval_snapshot_mismatch,
  executor_cannot_approve,
}
use qift_platform.Settlement.Calculator.{
  SettlementItemInput, SettlementCalculation, recovery_only, calculate_settlement,
}
use qift_platform.Settlement.Store.{CompositionEntry, Allocation}
use qift_platform.Settlement.Canonical.{Platform, canonical_json}
use qift_platform.Settlement.Statement.{
  FrozenBatchRecord, SettlementStatement, calculation_json, calculation_hash,
  generate_settlement_statement,
}

abbrev pub replay_engine_version : String
replay_engine_version = "settle2-replay@v1"

pub record ExecutionPreview : Type 0 where
  pub settlement_id : ℕ
  pub settlement_reference : ℕ
  pub store_id : ℕ
  pub currency : String
  pub net_amount : ℤ
  pub item_count : ℕ
  pub calculation_hash : String
  pub replay_verified : Bool
  pub statement_draft : SettlementStatement
  pub as_of : String

pub record ExecutionApproval : Type 0 where
  pub settlement_id : ℕ
  pub settlement_reference : ℕ
  pub calculation_hash : String
  pub approved_by : ℕ
  pub level : ℕ
  pub approved_at : String

unfoldable pub entry_input : CompositionEntry → SettlementItemInput
entry_input c = record {
  item_id = c.item_id;
  occurrence_type = c.occurrence_type;
  occurrence_id = c.occurrence_id;
  amount = c.amount;
  currency = c.currency;
}

-- `(recoveryAllocation ?? []).reduce((t, r) => t + r.amount, 0)`
unfoldable pub recovered_total : ℤ → List Allocation → ℤ
recovered_total t [] = t
recovered_total t (r ∷ rest) = recovered_total (t +ℤ r.amount) rest

-- The calculator on the frozen composition and the frozen recovery.
unfoldable pub recompute : FrozenBatchRecord → Result SettlementError SettlementCalculation
unfolding entry_input recovered_total
recompute frozen =
    calculate_settlement (map entry_input frozen.composition)
      (recovery_only (recovered_total (pos 0) frozen.recovery_allocation))

abbrev pub is_empty_list : List ExecutionApproval → Bool
is_empty_list [] = true
is_empty_list (a ∷ rest) = false

module _ (p : Platform) where
  -- The preview, from the recomputed calculation and the draft of the statement.
  unfoldable pub preview_of :
      FrozenBatchRecord
      → (as_of : String) → SettlementCalculation
      → SettlementStatement
      → ExecutionPreview
  preview_of frozen as_of recomputed draft = record {
    settlement_id = frozen.settlement_id;
    settlement_reference = frozen.settlement_reference;
    store_id = frozen.store_id;
    currency = frozen.currency;
    net_amount = frozen.calculation_snapshot.net_amount;
    item_count = frozen.calculation_snapshot.item_count;
    calculation_hash = calculation_hash p frozen.calculation_snapshot;
    replay_verified =
        str_eq (canonical_json p (calculation_json recomputed))
          (canonical_json p (calculation_json frozen.calculation_snapshot));
    statement_draft = draft;
    as_of = as_of;
  }

  unfoldable pub build_execution_preview :
      FrozenBatchRecord → (as_of : String) → Result SettlementError ExecutionPreview
  unfolding recompute preview_of
  build_execution_preview frozen as_of = do
    recomputed ← recompute frozen
    draft ← generate_settlement_statement p frozen as_of none none
    ok (preview_of frozen as_of recomputed draft)

  -- The loop over the approvals.
  unfoldable pub approvals_loop :
      FrozenBatchRecord
      → (executor : ℕ) → List ExecutionApproval
      → Result SettlementError (Unit {0})
  approvals_loop frozen executor [] = ok tt
  approvals_loop frozen executor (a ∷ rest) =
      let later = approvals_loop frozen executor rest in
      do
        throw_if
            (not (a.settlement_id == frozen.settlement_id)
              || not (a.settlement_reference == frozen.settlement_reference))
            approval_batch_mismatch
        throw_if (not (str_eq a.calculation_hash (calculation_hash p frozen.calculation_snapshot)))
            approval_snapshot_mismatch
        throw_if (a.approved_by == executor) executor_cannot_approve
        later

  unfoldable pub assert_execution_binding :
      FrozenBatchRecord
      → ExecutionPreview
      → List ExecutionApproval
      → (executor : ℕ) → Result SettlementError (Unit {0})
  unfolding approvals_loop
  assert_execution_binding frozen preview approvals executor = do
    throw_if (not (preview.settlement_id == frozen.settlement_id)) preview_batch_mismatch
    throw_if (not (preview.settlement_reference == frozen.settlement_reference))
        preview_reference_mismatch
    throw_if
        (not (str_eq preview.calculation_hash (calculation_hash p frozen.calculation_snapshot)))
        preview_snapshot_mismatch
    throw_if (not preview.replay_verified) replay_not_verified
    throw_if (is_empty_list approvals) approval_required
    approvals_loop frozen executor approvals
