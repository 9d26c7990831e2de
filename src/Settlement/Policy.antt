-- ===== src/Settlement/Policy.antt =====
-- src/settlement/settlement-approval-policy.ts: how many approvals an execution needs.
pub mod Bands
use qift_platform.Prelude.{ℕ, ◌*◌, Bool, true, false, ◌||◌, if◌then◌else◌}
use qift_platform.Prelude.Int.{ℤ, pos, ◌+ℤ◌, leb_ℤ}

-- SAR 5,000.00 and SAR 50,000.00
abbrev pub t1_minor : ℤ
t1_minor = pos 500_000

abbrev pub t2_minor : ℤ
t2_minor = pos 5_000_000

abbrev pub hour_ms : ℕ
hour_ms = 3_600_000

abbrev pub approval_ttl_hours : ℕ
approval_ttl_hours = 72

abbrev pub executed_at_max_age_hours : ℕ
executed_at_max_age_hours = 168

abbrev pub executed_at_max_skew_hours : ℕ
executed_at_max_skew_hours = 24

pub data ExecutionBand : Type 0 where
  le_t1 t1_t2 gt_t2 : ExecutionBand

unfoldable pub execution_band : ℤ → ExecutionBand
execution_band amount_minor =
    if leb_ℤ amount_minor t1_minor
    then le_t1
    else if leb_ℤ amount_minor t2_minor
    then t1_t2
    else gt_t2

pub record ExecutionApprovalRequirement : Type 0 where
  pub level : ℕ
  pub approvals_needed : ℕ
  pub senior_required : Bool
  pub band : ExecutionBand
  pub aggregate_band : ExecutionBand

abbrev pub is_gt_t2 : ExecutionBand → Bool
is_gt_t2 gt_t2 = true
is_gt_t2 _ = false

abbrev pub is_t1_t2 : ExecutionBand → Bool
is_t1_t2 t1_t2 = true
is_t1_t2 _ = false

-- The wider of the two bands.
unfoldable pub effective_band : ExecutionBand → ExecutionBand → ExecutionBand
effective_band aggregate band =
    if is_gt_t2 aggregate || is_gt_t2 band
    then gt_t2
    else if is_t1_t2 aggregate || is_t1_t2 band
    then t1_t2
    else le_t1

unfoldable pub required_execution_approval : ℤ → ℤ → ExecutionApprovalRequirement
unfolding effective_band execution_band
required_execution_approval net_minor other_minor_today =
    let band = execution_band net_minor in
    let effective = effective_band (execution_band (net_minor +ℤ other_minor_today)) band in
    let dual = is_gt_t2 effective in
    record {
      level = if dual then 3 else 2;
      approvals_needed = if dual then 2 else 1;
      senior_required = dual;
      band = band;
      aggregate_band = effective;
    }
