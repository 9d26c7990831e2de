-- ===== src/Settlement/Binding/Assembled.antt =====
-- A batch of `assembleBatch` (src/settlement/settlement-engine.service.ts) under the preview of
-- settlement-execution-binding.ts.
use Prim.Native.String.{String}
use text.Mathlib.TextEquality.{eq_iff}
use qift_platform.Prelude.{
  none, ℕ, true, ◌+◌, ◌==◌, List, [], ◌∷◌, ◌≡◌, refl, ap, ◌∙◌, subst, length, inl, inr,
}
use qift_platform.Prelude.Outcome.{Result, ok, err, elim_ok, else_ok}
use qift_platform.Money.{to_minor}
use qift_platform.Prelude.Int.{pos, ltb_ℤ}
use qift_platform.Settlement.Errors.{SettlementError, negative_net_deferred, nothing_eligible}
use qift_platform.Ledger.{Metadata, settlement_started}
use qift_platform.Settlement.Store.{v1, Db, Item, Batch, AuditAction, ◌>>◌, pure, lift, post}
use qift_platform.Settlement.Store.Update.{tx_ok, ok_pair}
use qift_platform.Settlement.Engine.Plan.{
  Plan, assert_all_ready, is_nil, eligible_items, plan_items, checked_plan, assembly_plan,
}
use qift_platform.Settlement.Engine.Assemble.{
  marker, audit_guaranteed, new_batch, claim, commit_assembly, attempts, assemble_batch,
}
use qift_platform.Settlement.Engine.Payout.Assembly.{or_again_ok}
use qift_platform.Settlement.Engine.Reads.{frozen_of}
use qift_platform.Settlement.Canonical.{Platform}
use qift_platform.Settlement.Statement.{
  FrozenBatchRecord, statement_of, generate_settlement_statement,
}
use qift_platform.Settlement.Binding.{
  ExecutionPreview, preview_of, recompute, build_execution_preview,
}
use qift_platform.Settlement.Binding.Recomputed.{recompute-new_batch}

commit_assembly_batch :
    (actor reference fresh : ℕ) (plan : Plan) (db db' : Db) {b : Batch}
    → commit_assembly actor reference fresh plan db ≡ ok (b, db')
    → new_batch actor reference fresh plan ≡ b
unfolding commit_assembly
commit_assembly_batch actor reference fresh plan db db' h =
    let batch = new_batch actor reference fresh plan in
    let entry =
      marker settlement_started "SETTLEMENT_STARTED"
        (Metadata.batch_started reference (length plan.items) plan.calculation.net_amount) actor
        batch in
    let audited = audit_guaranteed AuditAction.assembled fresh actor plan.store_id in
    let (_, d1, _, h1) =
      tx_ok (claim actor reference fresh plan) (λ _. post entry >> (audited >> pure batch)) db h in
    let (_, d2, _, h2) = tx_ok (post entry) (λ _. audited >> pure batch) d1 h1 in
    let (_, d3, _, h3) = tx_ok audited (λ _. pure batch) d2 h2 in (ok_pair batch _ d3 db' h3).0

attempts_batch :
    (n actor : ℕ) (plan : Plan) (candidates : List (ℕ × ℕ)) (db db' : Db) (b : Batch)
    → attempts n actor plan candidates db ≡ ok (b, db')
    → (reference : ℕ) × (fresh : ℕ) × (new_batch actor reference fresh plan ≡ b)
unfolding attempts
attempts_batch n actor plan [] db db' b h = cc
attempts_batch n actor plan ((reference, fresh) ∷ rest) db db' b h =
    elim (or_again_ok (n == 2) (commit_assembly actor reference fresh plan db)
      (attempts (n + 1) actor plan rest db) h) [
        | inl committed ↦
            (reference, fresh, commit_assembly_batch actor reference fresh plan db db' committed)
        | inr later ↦ attempts_batch (n + 1) actor plan rest db db' b later
      ]

checked_plan_same : (q plan : Plan) → checked_plan q ≡ ok plan → q ≡ plan
unfolding checked_plan
checked_plan_same q plan h =
    let kept =
      else_ok (ltb_ℤ (to_minor q.calculation.currency q.calculation.net_amount) (pos 0))
        negative_net_deferred _ h in
    let (_, _, same) = elim_ok (assert_all_ready q.items) (λ _. ok q) kept in cc

assembly_plan_items :
    (store : ℕ) (currency : String) (db : Db) (plan : Plan)
    → assembly_plan store currency db ≡ ok plan
    → (items : List Item) × (plan_items store currency items db ≡ ok plan)
unfolding assembly_plan
assembly_plan_items store currency db plan h =
    let items = eligible_items store currency db.items in
    let planned = else_ok (is_nil items) nothing_eligible _ h in
    let (q, made, checked) = elim_ok (plan_items store currency items db) checked_plan planned in
    (items, made ∙ ap ok (checked_plan_same q plan checked))

lift_value :
    {A : Type 0} (r : Result SettlementError A) (db db' : Db) {a : A}
    → lift r db ≡ ok (a, db')
    → r ≡ ok a
lift_value (ok b) db db' {a} h = ap ok (ok_pair b a db db' h).0
lift_value (err e) db db' h = cc

pub preview_of_recomputed :
    (p : Platform) (frozen : FrozenBatchRecord) (as_of : String)
    → recompute frozen ≡ ok frozen.calculation_snapshot
    → (preview : ExecutionPreview) × (build_execution_preview p frozen as_of ≡ ok preview)
      × (preview.replay_verified ≡ true)
unfolding build_execution_preview generate_settlement_statement preview_of
preview_of_recomputed p frozen as_of h = (
  preview_of p frozen as_of frozen.calculation_snapshot (statement_of p frozen as_of v1 none none),
  rw h refl,
  (eq_iff _ _).1 refl,
)

-- Whatever the tables, the preview of a batch that an assembly has just returned does not throw, and
-- its replay check, which recomputes the frozen composition with the frozen recovery, is verified.
pub assemble_batch-build_execution_preview :
    (p : Platform) (actor store : ℕ) (currency as_of : String) (candidates : List (ℕ × ℕ))
    (db db' : Db) (b : Batch)
    → assemble_batch actor store currency candidates db ≡ ok (b, db')
    → (preview : ExecutionPreview) × (build_execution_preview p (frozen_of b) as_of ≡ ok preview)
      × (preview.replay_verified ≡ true)
unfolding assemble_batch frozen_of new_batch
assemble_batch-build_execution_preview p actor store currency as_of candidates db db' b h =
    let (plan, d1, first, rest) =
      tx_ok (λ d. lift (assembly_plan store currency d) d)
        (λ plan. attempts 0 actor plan candidates) db h in
    let (items, planned) = assembly_plan_items store currency db plan (lift_value _ db d1 first) in
    let (reference, fresh, made) = attempts_batch 0 actor plan candidates d1 db' b rest in
    let batch = new_batch actor reference fresh plan in
    subst
      (λ (row : Batch).
        (preview : ExecutionPreview) × (build_execution_preview p (frozen_of row) as_of
          ≡ ok preview)
        × (preview.replay_verified ≡ true))
      made
      (preview_of_recomputed p (frozen_of batch) as_of
        (recompute-new_batch store currency items db plan actor reference fresh planned))
