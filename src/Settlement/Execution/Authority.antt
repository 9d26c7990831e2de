-- ===== src/Settlement/Execution/Authority.antt =====
-- What an execution and a close of src/settlement/settlement-execution.service.ts have been authorised
-- by when they succeed.
use Prim.Native.String.{String}
use text.Mathlib.Text.{◌==◌ as str_eq}
use qift_platform.Prelude.{
  ℕ, ◌≤◌, Bool, true, not, ◌&&◌, List, [], ◌∷◌, ◌≡◌, refl, subst, arith, All, any, map, contains,
  length, ltb, Bool-cases, inl, inr, ◌==◌,
}
use qift_platform.Prelude.Int.{ℤ}
use qift_platform.Prelude.Outcome.{Result, ok, err, step_ok, guard_ok, throw_if, ◌>>◌}
use qift_platform.Settlement.Errors.{
  SettlementError, preview_hash_mismatch, preview_act_required, insufficient_approvals,
  senior_approval_required, batch_drifted,
}
use qift_platform.Settlement.Policy.{ExecutionApprovalRequirement, required_execution_approval}
use qift_platform.Settlement.Store.{Db, Item, CompositionEntry, count}
use qift_platform.Settlement.Canonical.{Platform}
use qift_platform.Settlement.Statement.{FrozenBatchRecord}
use qift_platform.Settlement.Binding.{
  ExecutionPreview, ExecutionApproval, build_execution_preview, assert_execution_binding,
}
use qift_platform.Settlement.Binding.Gate.{Bound, differ_false, assert_execution_binding_iff}
use qift_platform.Settlement.Engine.Reads.{batch_items}
use qift_platform.Settlement.Execution.{
  Env, is_preview_act, execution_approval, active_votes, votes_on, has_votes, expired_if_any,
  is_approval_required, assert_level, still_ready, assert_no_drift, authorization_basis_minor,
  bound_approvals, authorise,
}
use qift_platform.Settlement.Execution.Votes.{is_active_vote, counted_once, counted-All}

-- The approvals meet the level: enough of them, and a senior one where the band asks for it.
pub record Meets (env : Env) (approvals : List ExecutionApproval)
    (requirement : ExecutionApprovalRequirement) : Type 0 where
  pub enough : requirement.approvals_needed ≤ length approvals
  pub senior :
      requirement.senior_required ≡ true
      → any (λ (a : ExecutionApproval). contains env.senior_approvers a.approved_by) approvals
        ≡ true

-- The authority of one act on a frozen batch, from the tables as they are.
pub record Authorised (p : Platform) (env : Env) (now actor : ℕ) (frozen : FrozenBatchRecord)
    (preview_hash : String) (aggregate : FrozenBatchRecord → Db → Result SettlementError ℤ)
    (db : Db) (approvals : List ExecutionApproval) : Type 0 where
  pub preview : ExecutionPreview
  pub built : build_execution_preview p frozen (p.iso now) ≡ ok preview
  pub named : preview_hash ≡ preview.calculation_hash
  pub reviewed :
      any (is_preview_act now frozen.settlement_id preview.calculation_hash) db.previews ≡ true
  pub bound : Bound p frozen preview approvals actor
  pub distinct : (k : ℕ) → count (λ (a : ExecutionApproval). a.approved_by == k) approvals ≤ 1
  pub recorded :
      All
        (λ (a : ExecutionApproval).
          any (is_active_vote now frozen.settlement_id a.approved_by) db.approvals ≡ true)
        approvals
  pub basis : ℤ
  pub basis_is : authorization_basis_minor frozen ≡ ok basis
  pub other : ℤ
  pub other_is : aggregate frozen db ≡ ok other
  pub level : Meets env approvals (required_execution_approval basis other)
  pub items : List Item
  pub items_are : batch_items frozen.settlement_id db ≡ ok items
  pub undrifted : All (λ c. still_ready items c ≡ true) frozen.composition

expired_if_any_ok :
    (recorded : Bool) (r : Result SettlementError (Unit {0}))
    → expired_if_any recorded r ≡ ok tt
    → r ≡ ok tt
unfolding expired_if_any
expired_if_any_ok recorded (ok done) h = refl
expired_if_any_ok recorded (err e) h = elim (Bool-cases (is_approval_required e && recorded)) [
  | inl expired ↦ let bad = rw expired at h in cc
  | inr kept ↦ let bad = rw kept at h in cc
]

pub and_done : (r : Result SettlementError (Unit {0})) → r ≡ ok tt → (r >> ok tt) ≡ ok tt
and_done (ok done) h = refl
and_done (err e) h = cc

assert_level_ok :
    (env : Env) (approvals : List ExecutionApproval) (requirement : ExecutionApprovalRequirement)
    → assert_level env approvals requirement ≡ ok tt
    → Meets env approvals requirement
unfolding assert_level
assert_level_ok env approvals requirement h =
    let seated =
      any (λ (a : ExecutionApproval). contains env.senior_approvers a.approved_by) approvals in
    let (enough, more) =
      guard_ok (ltb (length approvals) requirement.approvals_needed) insufficient_approvals
        (throw_if (requirement.senior_required && not seated) senior_approval_required) h in
    let (senior, _) =
      guard_ok (requirement.senior_required && not seated) senior_approval_required (ok tt)
        (and_done _ more) in
    record { enough = ground arith; senior = λ required. ground arith }

assert_no_drift_ok :
    (items : List Item) (rows : List CompositionEntry)
    → assert_no_drift items rows ≡ ok tt
    → All (λ c. still_ready items c ≡ true) rows
unfolding assert_no_drift
assert_no_drift_ok items [] h = tt
assert_no_drift_ok items (c ∷ rest) h =
    let (ready, later) =
      guard_ok (not (still_ready items c)) batch_drifted (assert_no_drift items rest) h in
    (ground arith, assert_no_drift_ok items rest later)

-- What the binding gate let through.
record Gated (p : Platform) (now actor : ℕ) (frozen : FrozenBatchRecord) (preview_hash : String)
    (db : Db) (approvals : List ExecutionApproval) : Type 0 where
  preview : ExecutionPreview
  built : build_execution_preview p frozen (p.iso now) ≡ ok preview
  named : preview_hash ≡ preview.calculation_hash
  reviewed :
      any (is_preview_act now frozen.settlement_id preview.calculation_hash) db.previews ≡ true
  bound : Bound p frozen preview approvals actor
  counted :
      map (execution_approval p) (active_votes now frozen.settlement_id db.approvals) ≡ approvals

bound_approvals_ok :
    (p : Platform) (now actor : ℕ) (frozen : FrozenBatchRecord) (preview_hash : String) (db : Db)
    (approvals : List ExecutionApproval)
    → bound_approvals p now actor frozen preview_hash db ≡ ok approvals
    → Gated p now actor frozen preview_hash db approvals
unfolding bound_approvals
bound_approvals_ok p now actor frozen preview_hash db approvals h =
    let (preview, built, h1) = step_ok (build_execution_preview p frozen (p.iso now)) _ h in
    let (named, h2) =
      guard_ok (not (str_eq preview_hash preview.calculation_hash)) preview_hash_mismatch _ h1 in
    let (reviewed, h3) =
      guard_ok
        (not (any (is_preview_act now frozen.settlement_id preview.calculation_hash) db.previews))
        preview_act_required _ h2 in
    let votes = map (execution_approval p) (active_votes now frozen.settlement_id db.approvals) in
    let recorded = has_votes (votes_on frozen.settlement_id db.approvals) in
    let (_, gate, h4) =
      step_ok (expired_if_any recorded (assert_execution_binding p frozen preview votes actor)) _
        h3 in
    let counted : votes ≡ approvals = cc in
    record {
      preview = preview;
      built = built;
      named = differ_false _ _ named;
      reviewed = ground arith;
      bound =
          subst (λ list. Bound p frozen preview list actor) counted
            ((assert_execution_binding_iff p frozen preview votes actor).0
              (expired_if_any_ok recorded _ gate));
      counted = counted;
    }

pub authorise-Authorised :
    (p : Platform) (env : Env) (now actor : ℕ) (frozen : FrozenBatchRecord) (preview_hash : String)
    (aggregate : FrozenBatchRecord → Db → Result SettlementError ℤ) (db : Db)
    (approvals : List ExecutionApproval)
    → authorise p env now actor frozen preview_hash aggregate db ≡ ok approvals
    → Authorised p env now actor frozen preview_hash aggregate db approvals
unfolding authorise
authorise-Authorised p env now actor frozen preview_hash aggregate db approvals h =
    let (bound, b1, h1) = step_ok (bound_approvals p now actor frozen preview_hash db) _ h in
    let (other, other_is, h2) = step_ok (aggregate frozen db) _ h1 in
    let (basis, basis_is, h3) = step_ok (authorization_basis_minor frozen) _ h2 in
    let (_, level, h4) =
      step_ok (assert_level env bound (required_execution_approval basis other)) _ h3 in
    let (items, items_are, h5) = step_ok (batch_items frozen.settlement_id db) _ h4 in
    let (_, undrifted, h6) = step_ok (assert_no_drift items frozen.composition) _ h5 in
    let same : bound ≡ approvals = cc in
    let gated = bound_approvals_ok p now actor frozen preview_hash db bound b1 in
    subst (Authorised p env now actor frozen preview_hash aggregate db) same (record {
      preview = gated.preview;
      built = gated.built;
      named = gated.named;
      reviewed = gated.reviewed;
      bound = gated.bound;
      distinct = λ k.
          subst (λ list. count (λ (a : ExecutionApproval). a.approved_by == k) list ≤ 1)
            gated.counted (counted_once p now frozen.settlement_id k db.approvals);
      recorded =
          subst
            (All (λ (a : ExecutionApproval).
              any (is_active_vote now frozen.settlement_id a.approved_by) db.approvals ≡ true))
            gated.counted (counted-All p now frozen.settlement_id db.approvals);
      basis = basis;
      basis_is = basis_is;
      other = other;
      other_is = other_is;
      level = assert_level_ok env bound (required_execution_approval basis other) level;
      items = items;
      items_are = items_are;
      undrifted = assert_no_drift_ok items frozen.composition undrifted;
    })
