-- ===== src/Settlement/Binding/Gate.antt =====
-- The gate of settlement-execution-binding.ts against its conditions.
use Prim.Native.String.{String}
use text.Mathlib.Text.{◌==◌ as str_eq}
use text.Mathlib.TextEquality.{eq_iff}
use qift_platform.Prelude.{
  ℕ, true, false, not, ◌||◌, List, [], ◌∷◌, ◌==◌, ◌≡◌, ◌≢◌, ◌↔◌, refl, arith, All,
}
use qift_platform.Prelude.Outcome.{ok, guard_ok, guard_pass}
use qift_platform.Settlement.Errors.{
  preview_batch_mismatch, preview_reference_mismatch, preview_snapshot_mismatch,
  replay_not_verified, approval_required, approval_batch_mismatch, approval_snapshot_mismatch,
  executor_cannot_approve,
}
use qift_platform.Settlement.Canonical.{Platform}
use qift_platform.Settlement.Statement.{FrozenBatchRecord, calculation_hash}
use qift_platform.Settlement.Binding.{
  ExecutionPreview, ExecutionApproval, is_empty_list, approvals_loop, assert_execution_binding,
}

pub differ_false : (s t : String) → not (str_eq s t) ≡ false → s ≡ t
differ_false s t h = (eq_iff s t).0 (ground arith)

same_text : (s t : String) → s ≡ t → not (str_eq s t) ≡ false
same_text s t h = rw ((eq_iff s t).1 h) refl

module _ (p : Platform) (frozen : FrozenBatchRecord) where
  -- The approval is of this batch and of this calculation, and is not the executor's own.
  pub record Binds (executor : ℕ) (a : ExecutionApproval) : Type 0 where
    pub batch : a.settlement_id ≡ frozen.settlement_id
    pub reference : a.settlement_reference ≡ frozen.settlement_reference
    pub hash : a.calculation_hash ≡ calculation_hash p frozen.calculation_snapshot
    pub other : a.approved_by ≢ executor

  -- The preview and the approvals that an execution may act on.
  pub record Bound (preview : ExecutionPreview) (approvals : List ExecutionApproval) (executor : ℕ)
      : Type 0 where
    pub batch : preview.settlement_id ≡ frozen.settlement_id
    pub reference : preview.settlement_reference ≡ frozen.settlement_reference
    pub hash : preview.calculation_hash ≡ calculation_hash p frozen.calculation_snapshot
    pub replayed : preview.replay_verified ≡ true
    pub some_approval : is_empty_list approvals ≡ false
    pub each : All (Binds executor) approvals

  loop_ok :
      (executor : ℕ) (approvals : List ExecutionApproval)
      → approvals_loop p frozen executor approvals ≡ ok tt
      → All (Binds executor) approvals
  unfolding approvals_loop
  loop_ok executor [] h = tt
  loop_ok executor (a ∷ rest) h =
      let (ids, on) =
        guard_ok
          (not (a.settlement_id == frozen.settlement_id)
            || not (a.settlement_reference == frozen.settlement_reference))
          approval_batch_mismatch _ h in
      let (hash, more) =
        guard_ok (not (str_eq a.calculation_hash (calculation_hash p frozen.calculation_snapshot)))
          approval_snapshot_mismatch _ on in
      let (other, later) = guard_ok (a.approved_by == executor) executor_cannot_approve _ more in
      (
        record {
          batch = ground arith;
          reference = ground arith;
          hash = differ_false _ _ hash;
          other = λ same. ground arith;
        },
        loop_ok executor rest later,
      )

  ids_pass :
      {executor : ℕ} (a : ExecutionApproval)
      → Binds executor a
      → (not (a.settlement_id == frozen.settlement_id)
          || not (a.settlement_reference == frozen.settlement_reference))
        ≡ false
  ids_pass a b = ground (arith, b.batch, b.reference)

  other_pass :
      {executor : ℕ} (a : ExecutionApproval)
      → Binds executor a
      → (a.approved_by == executor) ≡ false
  other_pass a b = ground (arith, b.other)

  loop_back :
      (executor : ℕ) (approvals : List ExecutionApproval)
      → All (Binds executor) approvals
      → approvals_loop p frozen executor approvals ≡ ok tt
  unfolding approvals_loop
  loop_back executor [] h = refl
  loop_back executor (a ∷ rest) h =
      let b = h.0 in
      guard_pass
        (not (a.settlement_id == frozen.settlement_id)
          || not (a.settlement_reference == frozen.settlement_reference))
        approval_batch_mismatch _ (ids_pass a b)
        (guard_pass
          (not (str_eq a.calculation_hash (calculation_hash p frozen.calculation_snapshot)))
          approval_snapshot_mismatch _ (same_text _ _ b.hash)
          (guard_pass (a.approved_by == executor) executor_cannot_approve _ (other_pass a b)
            (loop_back executor rest h.1)))

  -- The gate passes exactly when the preview is of this batch and of the frozen calculation and
  -- reproduced itself, there is at least one approval, and every approval is of this batch and of
  -- the frozen calculation and not the executor's own.
  pub assert_execution_binding_iff :
      (preview : ExecutionPreview) (approvals : List ExecutionApproval) (executor : ℕ)
      → (assert_execution_binding p frozen preview approvals executor ≡ ok tt)
        ↔ Bound preview approvals executor
  unfolding assert_execution_binding
  assert_execution_binding_iff preview approvals executor = (
    λ h.
        (let (batch, h1) =
            guard_ok (not (preview.settlement_id == frozen.settlement_id)) preview_batch_mismatch _
              h in
          let (reference, h2) =
            guard_ok (not (preview.settlement_reference == frozen.settlement_reference))
              preview_reference_mismatch _ h1 in
          let (hash, h3) =
            guard_ok
              (not
                (str_eq preview.calculation_hash (calculation_hash p frozen.calculation_snapshot)))
              preview_snapshot_mismatch _ h2 in
          let (replayed, h4) = guard_ok (not preview.replay_verified) replay_not_verified _ h3 in
          let (nonempty, h5) = guard_ok (is_empty_list approvals) approval_required _ h4 in
          record {
            batch = ground arith;
            reference = ground arith;
            hash = differ_false _ _ hash;
            replayed = ground arith;
            some_approval = nonempty;
            each = loop_ok executor approvals h5;
          }),
    λ b.
        guard_pass (not (preview.settlement_id == frozen.settlement_id)) preview_batch_mismatch _
          (ground (arith, b.batch))
          (guard_pass (not (preview.settlement_reference == frozen.settlement_reference))
            preview_reference_mismatch _ (ground (arith, b.reference))
            (guard_pass
              (not
                (str_eq preview.calculation_hash (calculation_hash p frozen.calculation_snapshot)))
              preview_snapshot_mismatch _ (same_text _ _ b.hash)
              (guard_pass (not preview.replay_verified) replay_not_verified _
                (ground (arith, b.replayed))
                (guard_pass (is_empty_list approvals) approval_required _ b.some_approval
                  (loop_back executor approvals b.each))))),
  )
