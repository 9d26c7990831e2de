-- ===== src/Settlement/Policy/Bands.antt =====
-- The approval bands over amounts, aggregates and fragments
-- (src/settlement/settlement-approval-policy.ts).
use qift_platform.Prelude.{
  ℕ, ◌≡◌, ◌⊎◌, ◌↔◌, Bool, true, false, arith, inl, inr, refl, ◌||◌, if◌then◌else◌, ℕ,
}
use qift_platform.Prelude.Int.{ℤ, pos, ◌+ℤ◌, ◌≤ℤ◌, ◌<ℤ◌, ltb_ℤ, +ℤ_parts}
use qift_platform.Settlement.Policy.{
  t2_minor, required_execution_approval, execution_band, is_gt_t2, effective_band,
}

-- The band is the widest one exactly when one of the two amounts is over the upper threshold.
dual_lem :
    (a b : ℤ)
    → is_gt_t2 (effective_band (execution_band a) (execution_band b))
      ≡ (ltb_ℤ t2_minor b || ltb_ℤ t2_minor a)
unfolding effective_band execution_band
dual_lem a b = ground arith

levels_lem :
    (net other : ℤ) (dual : Bool)
    → dual ≡ (ltb_ℤ t2_minor net || ltb_ℤ t2_minor other)
    → (◌≡◌ {A = ℕ} (if dual then 3 else 2) 3 ↔ (t2_minor <ℤ net ⊎ t2_minor <ℤ other))
levels_lem net other dual e = ((λ h. ground arith), (λ h. ground arith))

outcomes :
    (dual : Bool)
    → ◌≡◌ {A = ℕ} (if dual then 3 else 2) 3 × ◌≡◌ {A = ℕ} (if dual then 2 else 1) 2 × (dual ≡ true)
      ⊎ ◌≡◌ {A = ℕ} (if dual then 3 else 2) 2
        × ◌≡◌ {A = ℕ} (if dual then 2 else 1) 1
        × (dual ≡ false)
outcomes true = inl (refl, refl, refl)
outcomes false = inr (refl, refl, refl)

-- Dual approval, with one senior approver, is needed exactly when the amount alone or the day's
-- aggregate that includes it is over the upper threshold; any other execution needs one approval.
pub required_execution_approval_levels :
    (net other : ℤ)
    → let r = required_execution_approval net other in
      ((r.level ≡ 3) ↔ ((t2_minor <ℤ net) ⊎ (t2_minor <ℤ net +ℤ other)))
      × ((r.level ≡ 3) × (r.approvals_needed ≡ 2) × (r.senior_required ≡ true)
          ⊎ (r.level ≡ 2) × (r.approvals_needed ≡ 1) × (r.senior_required ≡ false))
unfolding required_execution_approval
required_execution_approval_levels net other =
    let dual = is_gt_t2 (effective_band (execution_band (net +ℤ other)) (execution_band net)) in
    (levels_lem net (net +ℤ other) dual (dual_lem (net +ℤ other) net), outcomes dual)

fragments_dual :
    (earlier last other : ℤ)
    → pos 0 ≤ℤ earlier
    → pos 0 ≤ℤ other
    → is_gt_t2 (effective_band (execution_band (last +ℤ (other +ℤ earlier))) (execution_band last))
      ≡ is_gt_t2 (
          effective_band
            (execution_band (earlier +ℤ last +ℤ other))
            (execution_band (earlier +ℤ last)))
fragments_dual earlier last other he ho =
    rw
      (
        dual_lem (last +ℤ (other +ℤ earlier)) last,
        dual_lem (earlier +ℤ last +ℤ other) (earlier +ℤ last),
      )
      (ground (
        arith,
        +ℤ_parts other earlier,
        +ℤ_parts last (other +ℤ earlier),
        +ℤ_parts earlier last,
        +ℤ_parts (earlier +ℤ last) other,
      ))

-- Splitting does not lower the level: after fragments that sum to `earlier`, the last fragment needs
-- the level, the number of approvals and the senior approver of the whole amount.
pub required_execution_approval_fragments :
    (earlier last other : ℤ)
    → pos 0 ≤ℤ earlier
    → pos 0 ≤ℤ other
    → let whole = required_execution_approval (earlier +ℤ last) other in
      let final = required_execution_approval last (other +ℤ earlier) in
      (final.level ≡ whole.level)
      × (final.approvals_needed ≡ whole.approvals_needed)
      × (final.senior_required ≡ whole.senior_required)
unfolding required_execution_approval
required_execution_approval_fragments earlier last other he ho =
    let e = fragments_dual earlier last other he ho in rw e (refl, refl, refl)
